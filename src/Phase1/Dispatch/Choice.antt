-- ===== src/Phase1/Dispatch/Choice.antt =====
-- Which process dispatcher of phase1b/phase1.c runs.
use process_control.Base.{
  ℕ, ◌%◌, if◌then◌else◌, ◌≡◌, ◌≢◌, refl, ap, ◌∙◌, false, Option, none, some, List, arith,
  update_field,
}
use process_control.Base.Int.{pos, minus_one, eqb_ℤ, ◌+ℤ◌, sub_ℕ}
use process_control.Base.Run.{done, yields, fault, out_of_fuel}
use process_control.Phase1.State.{
  Psr, State, Routine, max_proc, context_switch, disable_interrupts, get_process, getpid,
}
use process_control.Phase1.State.ProcessState.{runnable, running}
use process_control.Phase1.Dispatch.{
  hit, miss, bad_state, no_stop, is_unset, scan_queues, charge, take_processor, give_up,
  run_process, dispatch_from, dispatcher,
}
use process_control.Phase1.Dispatch.Search.{
  AllQueued, first_runnable, first_runnable-same, joined, to_scan, Queued-same, scan_queues-joined,
}

-- What dispatcher has done when it starts to search, for a process in the given slot.
abbrev pub charged : ℕ → State → State
charged n s = charge (n % max_proc) (disable_interrupts s)

scan-charged :
    (s : State) (contents : ℕ → List ℕ) (n : ℕ)
    → AllQueued s contents
    → scan_queues 7 (charged n s).process_table s.run_queues 1
      ≡ to_scan (first_runnable s.process_table (joined 7 contents 1))
scan-charged s contents n q =
    let t = (charged n s).process_table in
    let link : (i : ℕ) → (t i).next_queue_node ≡ (s.process_table i).next_queue_node =
      update_field s.process_table (λ x. x.next_queue_node) (n % max_proc) _ refl in
    let state : (i : ℕ) → (t i).state ≡ (s.process_table i).state =
      update_field s.process_table (λ x. x.state) (n % max_proc) _ refl in
    scan_queues-joined 7 t s.run_queues contents 1
      (λ j l h. Queued-same s.process_table t (s.run_queues j) (contents j) link state (q j l h))
    ∙ ap to_scan (first_runnable-same s.process_table t (joined 7 contents 1) state)

-- The steps of dispatcher, for a running process in a slot of the table.
dispatcher-charged :
    (s : State) (n : ℕ)
    → s.running_process_id ≡ pos n
    → dispatcher s ≡ dispatch_from s.psr (charged n s)
unfolding dispatcher
dispatcher-charged s n run =
    ap
      (λ slot. elim slot [
        | none ↦ fault (disable_interrupts s)
        | some k ↦ dispatch_from s.psr (charge k (disable_interrupts s))
      ])
      (ap get_process run)

dispatch_from-hit :
    (ps : Psr) (t : State) (p q : ℕ)
    → scan_queues 7 t.process_table t.run_queues 1 ≡ hit p
    → (t.process_table p).pid ≡ q
    → dispatch_from ps t ≡ run_process q t
unfolding dispatch_from
dispatch_from-hit ps t p q found e =
    ap
      (λ scan. elim scan [
        | hit k ↦ run_process (t.process_table k).pid t
        | miss ↦ done tt (record t { psr = ps })
        | bad_state ↦ fault t
        | no_stop ↦ out_of_fuel t
      ])
      found
    ∙ ap (λ k. run_process k t) e

dispatch_from-miss :
    (ps : Psr) (t : State)
    → scan_queues 7 t.process_table t.run_queues 1 ≡ miss
    → dispatch_from ps t ≡ done tt (record t { psr = ps })
unfolding dispatch_from
dispatch_from-miss ps t found =
    ap
      (λ scan. elim scan [
        | hit k ↦ run_process (t.process_table k).pid t
        | miss ↦ done tt (record t { psr = ps })
        | bad_state ↦ fault t
        | no_stop ↦ out_of_fuel t
      ])
      found

run_process-switch :
    (q n : ℕ) (t : State)
    → t.running_process_id ≡ pos n
    → is_unset (t.process_table (n % max_proc)).state ≡ false
    → run_process q t
      ≡ yields
          (context_switch (some (n % max_proc)) (q % max_proc))
          (take_processor q (give_up (n % max_proc) t))
          (λ _ u. done tt u)
unfolding run_process
run_process-switch q n t run set =
    ap
      (λ b.
        if b
        then yields (context_switch none (q % max_proc)) (take_processor q t) (λ _ u. done tt u)
        else with_old (get_process (getpid t)))
      (ap (λ z. eqb_ℤ z minus_one) run ∙ not_minus_one)
    ∙ ap with_old (ap get_process run)
    ∙ ap (λ b. if b then fault t else go) set
  where
    not_minus_one : eqb_ℤ (pos n) minus_one ≡ false
    not_minus_one = ground arith

    go : Routine (Unit {0})
    go =
        yields (context_switch (some (n % max_proc)) (q % max_proc))
          (take_processor q (give_up (n % max_proc) t)) (λ _ u. done tt u)

    with_old : Option ℕ → Routine (Unit {0})
    with_old none = fault t
    with_old (some old) =
        if is_unset (t.process_table old).state
        then fault t
        else yields (context_switch (some old) (q % max_proc)) (take_processor q (give_up old t))
            (λ _ u. done tt u)

-- The state in which the processor is handed from the process in the slot `old`, which runs in `s`,
-- to the process `q`.
pub record SwitchedTo (old q : ℕ) (s u : State) : Type 0 where
  pub runs : u.running_process_id ≡ pos q
  pub is_off : (u.psr).interrupts ≡ false
  pub mode : (u.psr).kernel_mode ≡ (s.psr).kernel_mode
  pub queues : u.run_queues ≡ s.run_queues
  pub new_state : (u.process_table (q % max_proc)).state ≡ running
  pub started : (u.process_table (q % max_proc)).start_time ≡ s.clock
  pub gave_up :
      old ≢ q % max_proc
      → (s.process_table old).state ≡ running
      → (u.process_table old).state ≡ runnable
  pub used :
      old ≢ q % max_proc
      → (u.process_table old).total_time
        ≡ (s.process_table old).total_time +ℤ sub_ℕ s.clock (s.process_table old).start_time
  pub others : (i : ℕ) → old ≢ i → q % max_proc ≢ i → u.process_table i ≡ s.process_table i

module _ (n q : ℕ) (s : State) where
  abbrev switched : State
  switched = take_processor q (give_up (n % max_proc) (charged n s))

  switched-SwitchedTo : SwitchedTo (n % max_proc) q s switched
  switched-SwitchedTo = record {
    runs = ground arith;
    is_off = ground arith;
    mode = ground arith;
    queues = ground arith;
    new_state = ground arith;
    started = ground arith;
    gave_up = λ ne e. ground arith;
    used = λ ne. ground arith;
    others = λ i m k. ground arith;
  }

-- Where the run queues 1 to 7 are chains of at most MAXPROC processes with a state, and a process
-- with a state runs, dispatcher switches from it to the first runnable process of the first queue,
-- by priority from 1 to 7, that has one, and returns when it is resumed. At the switch that process
-- is the running one, marked as running with its time starting now, the interrupts are off, the
-- queues are as they were, the old process, where it is another one, has its time added up and is
-- runnable if it was running, and all other processes are as they were.
pub dispatcher-first_runnable :
    (s : State) (contents : ℕ → List ℕ) (n p : ℕ)
    → AllQueued s contents
    → s.running_process_id ≡ pos n
    → is_unset (s.process_table (n % max_proc)).state ≡ false
    → first_runnable s.process_table (joined 7 contents 1) ≡ some p
    → let q = (s.process_table p).pid in
      (u : State) × (dispatcher s
        ≡ yields (context_switch (some (n % max_proc)) (q % max_proc)) u (λ _ v. done tt v))
      × SwitchedTo (n % max_proc) q s u
dispatcher-first_runnable s contents n p q run set first =
    let same_pid = update_field s.process_table (λ x. x.pid) (n % max_proc) _ refl p in
    let same_state =
      update_field s.process_table (λ x. x.state) (n % max_proc) _ refl (n % max_proc) in
    (
      switched n (s.process_table p).pid s,
      dispatcher-charged s n run
          ∙ dispatch_from-hit s.psr (charged n s) p (s.process_table p).pid
              (scan-charged s contents n q ∙ ap to_scan first) same_pid
          ∙ run_process-switch (s.process_table p).pid n (charged n s) run
              (ap is_unset same_state ∙ set),
      switched-SwitchedTo n (s.process_table p).pid s,
    )

-- Where the run queues 1 to 7 are chains of at most MAXPROC processes with a state, none of them
-- runnable, dispatcher returns to the process that runs and called it, with the interrupts as they
-- were and its time added up.
pub dispatcher-none_runnable :
    (s : State) (contents : ℕ → List ℕ) (n : ℕ)
    → AllQueued s contents
    → s.running_process_id ≡ pos n
    → first_runnable s.process_table (joined 7 contents 1) ≡ none
    → dispatcher s ≡ done tt (record (charged n s) { psr = s.psr })
dispatcher-none_runnable s contents n q run first =
    dispatcher-charged s n run
    ∙ dispatch_from-miss s.psr (charged n s) (scan-charged s contents n q ∙ ap to_scan first)
