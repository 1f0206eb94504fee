-- ===== src/Phase1/Dispatch.antt =====
-- dispatcher, runProcess, blockMe, unblockProc, timeSlice and the readings of the clock of
-- phase1b/phase1.c. What stands behind `context_switch` runs when the process is resumed.
pub mod Search
pub mod Choice
pub mod Blocking
use process_control.Base.{
  ℕ, zero, suc, ◌+◌, ◌%◌, if◌then◌else◌, Bool, true, false, ◌&&◌, not, Option, none, some, is_none,
}
use process_control.Base.Int.{ℤ, pos, minus_one, ◌+ℤ◌, sub_ℕ, eqb_ℤ, ltb_ℤ}
use process_control.Base.Run.{done, yields, halted, fault, out_of_fuel}
use process_control.Phase1.State.{
  Process, ProcessState, Psr, Routine, State, max_proc, context_switch, console, zap_status,
  join_block_status, bad_block_status, put_process, disable_interrupts, get_process, getpid,
}
use process_control.Phase1.State.ProcessState.{
  unset, runnable, running, blocked_zap, blocked_join, blocked,
}
use process_control.Phase1.Queue.{
  Step, ok, bad_index, no_end, queue_index, add_to_queue, remove_node, rotate,
}

abbrev pub set_state : ℕ → ProcessState → State → State
set_state i x s = put_process i (record (s.process_table i) { state = x }) s

-- `strcmp(state, "Runnable") == 0` and `"Running"`.
abbrev pub is_runnable : ProcessState → Bool
is_runnable runnable = true
is_runnable _ = false

abbrev pub is_running : ProcessState → Bool
is_running running = true
is_running _ = false

abbrev pub is_unset : ProcessState → Bool
is_unset unset = true
is_unset _ = false

-- `currentTime() - getProcess(getpid())->startTime`, for the slot of the running process.
abbrev pub readtime : ℕ → State → ℤ
readtime slot s = sub_ℕ s.clock (s.process_table slot).start_time

-- The new process runs from now on.
abbrev pub take_processor : ℕ → State → State
take_processor pid s =
    let new = pid % max_proc in
    let t = set_state new running s in
    let u = record t { running_process_id = pos pid } in
    put_process new (record (u.process_table new) { start_time = u.clock }) u

-- The old process, if it was running, waits for its next turn.
abbrev pub give_up : ℕ → State → State
give_up old s = if is_running (s.process_table old).state then set_state old runnable s else s

unfoldable pub run_process : ℕ → State → Routine (Unit {0})
run_process pid s =
    if eqb_ℤ (getpid s) minus_one
    then yields (context_switch none (pid % max_proc)) (take_processor pid s) (λ _ t. done tt t)
    else elim (get_process (getpid s)) [
      | none ↦ fault s
      | some old ↦
          if is_unset (s.process_table old).state
          then fault s
          else yields (context_switch (some old) (pid % max_proc))
              (take_processor pid (give_up old s)) (λ _ t. done tt t)
    ]

-- The outcome of the scan for a process to run: its slot, none, a comparison with a null pointer,
-- or a queue without an end.
pub data Scan : Type 0 where
  hit : ℕ → Scan
  miss bad_state no_stop : Scan

unfoldable pub scan_queue : ℕ → (ℕ → Process) → Option ℕ → Scan
scan_queue zero table current = no_stop
scan_queue (suc fuel) table none = miss
scan_queue (suc fuel) table (some p) =
    let rest = scan_queue fuel table (table p).next_queue_node in
    if is_unset (table p).state
    then bad_state
    else if is_runnable (table p).state
    then hit p
    else rest

-- The queues `i`, `i + 1`, …, with `rounds` left.
unfoldable pub scan_queues : ℕ → (ℕ → Process) → (ℕ → Option ℕ) → ℕ → Scan
unfolding scan_queue
scan_queues zero table queues i = miss
scan_queues (suc rounds) table queues i =
    let rest = scan_queues rounds table queues (i + 1) in
    elim (scan_queue (max_proc + 1) table (queues i)) [
      | hit p ↦ hit p
      | miss ↦ rest
      | bad_state ↦ bad_state
      | no_stop ↦ no_stop
    ]

-- The time that the running process used is added up.
abbrev pub charge : ℕ → State → State
charge slot s =
    put_process slot
      (record (s.process_table slot) {
        total_time = (s.process_table slot).total_time +ℤ readtime slot s;
      })
      s

-- Interrupts are off from here on; they come back only if no process is found.
unfoldable pub dispatch_from : Psr → State → Routine (Unit {0})
unfolding run_process scan_queues
dispatch_from ps s = elim (scan_queues 7 s.process_table s.run_queues 1) [
  | hit p ↦ run_process (s.process_table p).pid s
  | miss ↦ done tt (record s { psr = ps })
  | bad_state ↦ fault s
  | no_stop ↦ out_of_fuel s
]

unfoldable pub dispatcher : State → Routine (Unit {0})
unfolding dispatch_from
dispatcher s = elim (get_process (getpid s)) [
  | none ↦ fault (disable_interrupts s)
  | some slot ↦ dispatch_from s.psr (charge slot (disable_interrupts s))
]

-- Goes on behind a routine over the queues.
abbrev pub after_step : State → Step → (State → Routine (Unit {0})) → Routine (Unit {0})
after_step s (ok t) next = next t
after_step s bad_index next = fault s
after_step s no_end next = out_of_fuel s

-- The running process leaves its queue, with the given state.
unfoldable pub suspend : ProcessState → (Process → Process) → State → Routine (Unit {0})
unfolding dispatcher remove_node
suspend x change s = elim (get_process (getpid s)) [
  | none ↦ fault s
  | some slot ↦
      let t = put_process slot (change (record (s.process_table slot) { state = x })) s in
      after_step t (remove_node slot t) dispatcher
]

unfoldable pub block_me : ℤ → State → Routine (Unit {0})
unfolding suspend
block_me block_status s =
    if eqb_ℤ block_status zap_status
    then suspend blocked_zap (λ p. p) s
    else if eqb_ℤ block_status join_block_status
    then suspend blocked_join (λ p. p) s
    else if not (ltb_ℤ (pos 10) block_status)
    then yields (console bad_block_status) s (λ _ t. halted (pos 1) t)
    else suspend blocked (λ p. record p { status = block_status }) s

-- The answer is always 0.
unfoldable pub unblock_proc : ℤ → State → Routine (Unit {0})
unfolding dispatcher add_to_queue
unblock_proc pid s = elim (get_process pid) [
  | none ↦ fault s
  | some slot ↦ let t = set_state slot runnable s in after_step t (add_to_queue slot t) dispatcher
]

-- The running process used up its 80 time units and another is behind it in its queue.
abbrev pub is_due : ℕ → State → Bool
is_due slot s =
    not (ltb_ℤ (readtime slot s) (pos 80)) && not (is_none (s.process_table slot).next_queue_node)

unfoldable pub time_slice : State → Routine (Unit {0})
unfolding dispatcher rotate
time_slice s = elim (get_process (getpid s)) [
  | none ↦ fault s
  | some slot ↦
      if is_due slot s
      then (elim (queue_index (s.process_table slot).priority) [
        | none ↦ fault s
        | some i ↦ after_step s (rotate i s) dispatcher
      ])
      else done tt s
]
