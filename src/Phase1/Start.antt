-- ===== src/Phase1/Start.antt =====
-- How the phase starts, and the processes of its own: phase1_init, startProcesses, trampoline,
-- sentinel, testcase_main_local, init_main and clockHandler of phase1b/phase1.c.
pub mod First
use process_control.Base.{ℕ, zero, suc, ltb, if◌then◌else◌, none, some, [], ◌∷◌}
use process_control.Base.Int.{ℤ, pos, minus_one, minus_two, eqb_ℤ}
use process_control.Base.Run.{done, yields, halted, fault, out_of_fuel, bind}
use process_control.Phase1.State.{
  Routine, State, console, deadlock, error_message, start, testcase_main, start_services, check_io,
  wait_int, phase2_clock_handler, enable_interrupts, get_process, getpid,
}
use process_control.Phase1.State.ProcessState.{runnable}
use process_control.Phase1.Dispatch.{dispatcher, set_state, time_slice}
use process_control.Phase1.Zap.{complain}
use process_control.Phase1.Create.{Request, create_process, fork1}
use process_control.Phase1.Family.{join, quit}

-- The start functions of the phase's own processes, as numbers that stand for their addresses.
abbrev pub init_main_address : ℕ
init_main_address = 0

abbrev pub sentinel_address : ℕ
sentinel_address = 1

abbrev pub testcase_main_address : ℕ
testcase_main_address = 2

-- "init", "sentinel" and "testcase_main".
abbrev pub init_request : Request
init_request = record {
  name = some (105 ∷ 110 ∷ 105 ∷ 116 ∷ []);
  start_func = some init_main_address;
  arg = 0;
  priority = pos 6;
}

abbrev pub sentinel_request : Request
sentinel_request = record {
  name = some (115 ∷ 101 ∷ 110 ∷ 116 ∷ 105 ∷ 110 ∷ 101 ∷ 108 ∷ []);
  start_func = some sentinel_address;
  arg = 0;
  priority = pos 7;
}

abbrev pub testcase_main_request : Request
testcase_main_request = record {
  name = some (116 ∷ 101 ∷ 115 ∷ 116 ∷ 99 ∷ 97 ∷ 115 ∷ 101 ∷ 95 ∷ 109 ∷ 97 ∷ 105 ∷ 110 ∷ []);
  start_func = some testcase_main_address;
  arg = 0;
  priority = pos 3;
}

unfoldable pub phase1_init : State → Routine ℤ
unfolding create_process
phase1_init s =
    create_process init_request
      (record s { run_queues = λ i. if ltb i 8 then none else s.run_queues i })

-- The service processes of the four upper phases, then the first dispatch.
unfoldable pub start_processes : State → Routine (Unit {0})
unfolding dispatcher
start_processes s = yields (start_services 2) s (λ _ t.
    yields (start_services 3) t (λ _ u.
      yields (start_services 4) u (λ _ v. yields (start_services 5) v (λ _ w. dispatcher w))))

-- A start function that returns -1 does not quit.
unfoldable pub trampoline : State → Routine (Unit {0})
unfolding quit bind
trampoline s =
    let t = enable_interrupts s in
    elim (get_process (getpid t)) [
      | none ↦ fault t
      | some slot ↦ elim (t.process_table slot).start_func [
        | none ↦ fault t
        | some f ↦ yields (start (some f) (t.process_table slot).arg) t (λ status u.
            bind (if eqb_ℤ status minus_one then done tt u else quit status u)
              (λ _ v. done tt (record v { psr = s.psr })))
      ]
    ]

-- The loop has no end of its own.
unfoldable pub sentinel : ℕ → State → Routine ℤ
sentinel zero s = out_of_fuel s
sentinel (suc fuel) s = yields check_io s (λ answer t.
    if eqb_ℤ answer (pos 0)
    then complain deadlock t
    else yields wait_int t (λ _ u. sentinel fuel u))

unfoldable pub testcase_main_local : State → Routine (Unit {0})
testcase_main_local s = yields testcase_main (enable_interrupts s) (λ ret t.
    if eqb_ℤ ret (pos 0)
    then halted ret (record t { psr = s.psr })
    else yields (console error_message) t (λ _ u. halted ret (record u { psr = s.psr })))

-- Init waits for its children for ever: `while (retVal != -2)`.
unfoldable pub init_loop : ℕ → State → Routine ℤ
unfolding join dispatcher bind
init_loop zero s = out_of_fuel s
init_loop (suc fuel) s = bind (join (suc fuel) s) (λ r t.
    bind (dispatcher (set_state 1 runnable t)) (λ _ u.
      let rest = init_loop fuel u in if eqb_ℤ r.0 minus_two then halted (pos 0) u else rest))

unfoldable pub init_main : ℕ → ℤ → State → Routine ℤ
unfolding fork1 init_loop bind
init_main fuel min_stack s =
    bind (fork1 min_stack sentinel_request min_stack s)
      (λ _ t. bind (fork1 min_stack testcase_main_request min_stack t) (λ _ u. init_loop fuel u))

unfoldable pub clock_handler : State → Routine (Unit {0})
unfolding time_slice
clock_handler s = yields phase2_clock_handler s (λ _ t. time_slice t)
