-- ===== src/Phase1a/Family.antt =====
-- join and quit of phase1a/phase1.c, which never wait.
pub mod Lifecycle
use process_control.Base.{ℕ, zero, suc, ◌+◌, ◌%◌, if◌then◌else◌, not, Option, none, some, is_none}
use process_control.Base.Int.{ℤ, pos, minus_two}
use process_control.Base.Run.{done, yields, fault, out_of_fuel}
use process_control.Phase1.State.ProcessState.{running, terminated, removed}
use process_control.Phase1.Dispatch.{is_unset}
use process_control.Phase1.Zap.{is_terminated}
use process_control.Phase1.Family.{
  Search, dead_child, nobody, bad_child, endless_list, Status, untouched, written,
}
use process_control.Phase1a.State.{
  Process, Routine, State, context_switch, quit_in_user_mode, quit_with_children, max_proc, blank,
  complain, put_process, set_state, get_process, getpid,
}

-- The walk of `while (curChild != NULL)`.
unfoldable pub search_children : ℕ → (ℕ → Process) → Option ℕ → Search
search_children zero table current = endless_list
search_children (suc fuel) table none = nobody
search_children (suc fuel) table (some c) =
    let rest = search_children fuel table (table c).next_sibling in
    if is_unset (table c).state
    then bad_child
    else if is_terminated (table c).state
    then dead_child c
    else rest

unfoldable pub unlink_child_prev : ℕ → ℕ → State → State
unlink_child_prev parent child s = elim (s.process_table child).prev_sibling [
  | none ↦
      put_process parent
        (record (s.process_table parent) { first_child = (s.process_table child).next_sibling }) s
  | some p ↦
      put_process p
        (record (s.process_table p) { next_sibling = (s.process_table child).next_sibling }) s
]

unfoldable pub unlink_child_next : ℕ → State → State
unlink_child_next child s = elim (s.process_table child).next_sibling [
  | none ↦ s
  | some n ↦
      put_process n
        (record (s.process_table n) { prev_sibling = (s.process_table child).prev_sibling }) s
]

-- The entry that is cleared is the one of the child's pid.
unfoldable pub reap : ℕ → ℕ → State → State
unfolding unlink_child_prev unlink_child_next
reap parent child s =
    let t = unlink_child_next child (unlink_child_prev parent child s) in
    let u = set_state child removed t in
    put_process ((u.process_table child).pid % max_proc) blank u

-- With children none of which has ended the answer is -2, as it is without children.
unfoldable pub join : State → Routine (ℤ × Status)
unfolding search_children reap
join s = elim (get_process (getpid s)) [
  | none ↦ fault s
  | some parent ↦
      if is_none (s.process_table parent).first_child
      then done (minus_two, untouched) s
      else elim (search_children (max_proc + 1) s.process_table
          (s.process_table parent).first_child) [
            | dead_child c ↦
                done (pos (s.process_table c).pid, written (s.process_table c).status)
                  (reap parent c s)
            | nobody ↦ done (minus_two, untouched) s
            | bad_child ↦ fault s
            | endless_list ↦ out_of_fuel s
          ]
]

-- `curProcess->status = status; curProcess->state = "Terminated";`
abbrev pub set_terminated : ℕ → ℤ → State → State
set_terminated slot status s =
    set_state slot terminated
      (put_process slot (record (s.process_table slot) { status = status }) s)

-- The process `pid`, in its slot, runs from now on.
abbrev pub take_processor : ℕ → ℤ → State → State
take_processor slot pid s = record (set_state slot running s) { running_process_id = pid }

-- The process that ends says which one runs next.
unfoldable pub quit : ℤ → ℤ → State → Routine (Unit {0})
quit status switch_to s =
    if not (s.psr).kernel_mode
    then complain quit_in_user_mode s
    else elim (get_process (getpid s)) [
      | none ↦ fault s
      | some slot ↦
          if not (is_none (s.process_table slot).first_child)
          then complain quit_with_children s
          else let t = set_terminated slot status s in
            elim (get_process switch_to) [
              | none ↦ fault t
              | some next ↦
                  yields (context_switch none next) (take_processor next switch_to t)
                    (λ _ u. done tt u)
            ]
    ]
