-- ===== src/Phase1/Family.antt =====
-- join and quit of phase1b/phase1.c.
pub mod Reaping
pub mod Ending
pub mod Waiting
pub mod Joining
use process_control.Base.{ℕ, zero, suc, ◌+◌, ◌%◌, if◌then◌else◌, not, Option, none, some, is_none}
use process_control.Base.Int.{ℤ, pos, minus_two}
use process_control.Base.Run.{done, fault, out_of_fuel, bind}
use process_control.Phase1.State.{
  Process, Routine, State, max_proc, join_block_status, quit_in_user_mode, quit_with_children,
  put_process, get_process, getpid,
}
use process_control.Phase1.State.ProcessState.{runnable, terminated, removed}
use process_control.Phase1.Queue.{Step, ok, bad_index, no_end, add_to_queue, remove_node}
use process_control.Phase1.Dispatch.{is_unset, set_state, after_step, block_me, unblock_proc}
use process_control.Phase1.Zap.{is_terminated, complain}
use process_control.Phase1.Create.{blank}

-- The outcome of the walk along the children: the first terminated one, none, a comparison with a
-- null pointer, or a list without an end.
pub data Search : Type 0 where
  dead_child : ℕ → Search
  nobody bad_child endless_list : Search

unfoldable pub search_children : ℕ → (ℕ → Process) → Option ℕ → Search
search_children zero table current = endless_list
search_children (suc fuel) table none = nobody
search_children (suc fuel) table (some c) =
    let rest = search_children fuel table (table c).next_sibling in
    if is_unset (table c).state
    then bad_child
    else if is_terminated (table c).state
    then dead_child c
    else rest

-- The child leaves the list of its siblings.
abbrev pub unlink_child_prev : ℕ → ℕ → State → State
unlink_child_prev parent child s = elim (s.process_table child).prev_sibling [
  | none ↦
      put_process parent
        (record (s.process_table parent) { first_child = (s.process_table child).next_sibling }) s
  | some p ↦
      put_process p
        (record (s.process_table p) { next_sibling = (s.process_table child).next_sibling }) s
]

abbrev pub unlink_child_next : ℕ → State → State
unlink_child_next child s = elim (s.process_table child).next_sibling [
  | none ↦ s
  | some n ↦
      put_process n
        (record (s.process_table n) { prev_sibling = (s.process_table child).prev_sibling }) s
]

-- What join leaves in `*status`: the nested call of join may leave its variable unset.
pub data Status : Type 0 where
  untouched indeterminate : Status
  written : ℤ → Status

-- The entry that is cleared is the one of the child's pid.
unfoldable pub reap : ℕ → ℕ → State → State
reap parent child s =
    let t = unlink_child_next child (unlink_child_prev parent child s) in
    let u = set_state child removed t in
    put_process ((u.process_table child).pid % max_proc) blank u

abbrev pub nested_status : Status → Status
nested_status untouched = indeterminate
nested_status x = x

-- The fuel bounds how often the process blocks.
unfoldable pub join : ℕ → State → Routine (ℤ × Status)
unfolding search_children reap block_me bind
join zero s = out_of_fuel s
join (suc fuel) s = elim (get_process (getpid s)) [
  | none ↦ fault s
  | some parent ↦
      if is_none (s.process_table parent).first_child
      then done (minus_two, untouched) s
      else elim (search_children (max_proc + 1) s.process_table
          (s.process_table parent).first_child) [
            | dead_child c ↦
                done (pos (s.process_table c).pid, written (s.process_table c).status)
                  (reap parent c s)
            | nobody ↦
                bind (block_me join_block_status s)
                  (λ _ t. bind (join fuel t) (λ r u. done (r.0, nested_status r.1) u))
            | bad_child ↦ fault s
            | endless_list ↦ out_of_fuel s
          ]
]

-- Every process that zaps the one that ends is runnable again, unless it ended itself. `bad_index`
-- also stands for a comparison with a null pointer.
unfoldable pub wake_zappers : ℕ → Option ℕ → State → Step
unfolding add_to_queue
wake_zappers zero current s = no_end
wake_zappers (suc fuel) none s = ok s
wake_zappers (suc fuel) (some z) s =
    if is_unset (s.process_table z).state
    then bad_index
    else if is_terminated (s.process_table z).state
    then wake_zappers fuel (s.process_table z).next_zap_node s
    else elim (add_to_queue z (set_state z runnable s)) [
      | ok t ↦ wake_zappers fuel (t.process_table z).next_zap_node t
      | bad_index ↦ bad_index
      | no_end ↦ no_end
    ]

-- `curProcess->status = status; curProcess->state = "Terminated";`
abbrev pub set_terminated : ℕ → ℤ → State → State
set_terminated slot status s =
    set_state slot terminated
      (put_process slot (record (s.process_table slot) { status = status }) s)

-- Behind removeNode: the parent's pid is read before the zappers are woken.
unfoldable pub leave : ℕ → State → Routine (Unit {0})
unfolding wake_zappers unblock_proc
leave slot s = elim (s.process_table slot).parent [
  | none ↦ fault s
  | some parent ↦
      after_step s (wake_zappers (max_proc + 1) (s.process_table slot).zap_head s)
        (unblock_proc (pos (s.process_table parent).pid))
]

unfoldable pub quit : ℤ → State → Routine (Unit {0})
unfolding remove_node leave
quit status s =
    if not (s.psr).kernel_mode
    then complain quit_in_user_mode s
    else elim (get_process (getpid s)) [
      | none ↦ fault s
      | some slot ↦
          if not (is_none (s.process_table slot).first_child)
          then complain quit_with_children s
          else let t = set_terminated slot status s in
            after_step t (remove_node slot t) (leave slot)
    ]
