-- ===== src/Phase1a/Start.antt =====
-- How the phase starts, its own processes, and the switch by hand: phase1_init, startProcesses,
-- trampoline, sentinel, testcase_main_local, TEMP_switchTo, init_main and dumpProcesses of
-- phase1a/phase1.c.
use process_control.Base.{
  ℕ, zero, suc, ◌+◌, ◌==◌, if◌then◌else◌, true, not, Option, none, some, List, [], ◌∷◌,
}
use process_control.Base.Int.{ℤ, pos, eqb_ℤ}
use process_control.Base.Run.{done, yields, halted, fault, out_of_fuel, bind}
use process_control.Phase1.State.ProcessState.{runnable}
use process_control.Phase1.Dispatch.{is_unset}
use process_control.Phase1.Zap.{is_terminated}
use process_control.Phase1.Start.{init_request, sentinel_request, testcase_main_request}
use process_control.Phase1.Dump.{Row}
use process_control.Phase1a.State.{
  Process, Routine, State, context_switch, console, deadlock, error_message, testcase_returned,
  init_switches, start, testcase_main, start_services, check_io, wait_int, max_proc, complain,
  set_state, get_process, getpid,
}
use process_control.Phase1a.Create.{create_process, fork1}
use process_control.Phase1a.Family.{take_processor}

unfoldable pub phase1_init : State → Routine ℤ
unfolding create_process
phase1_init s = create_process init_request s

-- Init is the process of slot 1.
unfoldable pub start_processes : State → Routine (Unit {0})
start_processes s = yields (start_services 2) s (λ _ t. yields (start_services 3) t (λ _ u.
    yields (start_services 4) u (λ _ v.
      yields (start_services 5) v
        (λ _ w. yields (context_switch none 1) (take_processor 1 (pos 1) w) (λ _ x. done tt x)))))

-- A start function that returns ends nothing.
unfoldable pub trampoline : State → Routine (Unit {0})
trampoline s = elim (get_process (getpid s)) [
  | none ↦ fault s
  | some slot ↦ elim (s.process_table slot).start_func [
    | none ↦ fault s
    | some f ↦ yields (start (some f) (s.process_table slot).arg) s (λ _ t. done tt t)
  ]
]

-- The loop has no end of its own.
unfoldable pub sentinel : ℕ → State → Routine ℤ
sentinel zero s = out_of_fuel s
sentinel (suc fuel) s = yields check_io s (λ answer t.
    if eqb_ℤ answer (pos 0)
    then complain deadlock t
    else yields wait_int t (λ _ u. sentinel fuel u))

unfoldable pub testcase_main_local : State → Routine (Unit {0})
testcase_main_local s =
    yields testcase_main (record s { psr = record (s.psr) { interrupts = true } })
      (λ ret t. yields (console testcase_returned) t (λ _ u.
        if eqb_ℤ ret (pos 0)
        then halted ret (record u { psr = s.psr })
        else yields (console error_message) u (λ _ v. halted ret (record v { psr = s.psr }))))

-- `old` and `new` are the slots of the process that runs and of the one that is to run.
unfoldable pub temp_switch_to : ℤ → State → Routine (Unit {0})
temp_switch_to pid s = elim (get_process (getpid s)) [
  | none ↦ fault s
  | some old ↦
      let t = set_state old runnable s in
      elim (get_process pid) [
        | none ↦ fault t
        | some new ↦
            yields (context_switch (some old) new) (take_processor new pid t) (λ _ u. done tt u)
      ]
]

unfoldable pub init_main : ℤ → State → Routine ℤ
unfolding fork1 temp_switch_to bind
init_main min_stack s = bind (fork1 min_stack sentinel_request min_stack s) (λ _ t.
    bind (fork1 min_stack testcase_main_request min_stack t) (λ _ u.
      yields (console init_switches) u
        (λ _ v. bind (temp_switch_to (pos 3) v) (λ _ w. halted (pos 0) w))))

-- The process of pid 1 has no parent, and its line says 0; any other without a parent is read
-- through a null pointer, as a state without a string is.
abbrev pub row_parent : (ℕ → Process) → Process → Option ℕ
row_parent table p =
    if p.pid == 1 then some 0 else elim p.parent [ none ↦ none | some i ↦ some (table i).pid ]

abbrev pub row_of : Process → ℕ → Row
row_of p parent_pid = record {
  pid = p.pid;
  parent_pid = parent_pid;
  name = p.name;
  priority = p.priority;
  state = p.state;
  code = if is_terminated p.state then some p.status else none;
}

-- The slots `i`, `i + 1`, … with `rounds` left.
unfoldable pub dump_rows : ℕ → (ℕ → Process) → ℕ → Option (List Row)
dump_rows zero table i = some []
dump_rows (suc rounds) table i =
    let rest = dump_rows rounds table (i + 1) in
    if not (table i).is_initialized
    then rest
    else if is_unset (table i).state
    then none
    else elim (row_parent table (table i)) [
      | none ↦ none
      | some parent_pid ↦ elim rest [
        | none ↦ none
        | some rows ↦ some (row_of (table i) parent_pid ∷ rows)
      ]
    ]

unfoldable pub dump_processes : State → Option (List Row)
unfolding dump_rows
dump_processes s = dump_rows max_proc s.process_table 0
