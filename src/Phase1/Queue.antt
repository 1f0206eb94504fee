-- ===== src/Phase1/Queue.antt =====
-- The run queues: addToQueue, removeNode and the rotation of timeSlice of phase1b/phase1.c.
pub mod Order
pub mod Turns
pub mod Removal
pub mod Removed
pub mod Invariant
pub mod Adding
pub mod Stale
pub mod Kept
use process_control.Base.{
  ℕ, zero, suc, ◌+◌, ◌==◌, ltb, if◌then◌else◌, Bool, false, Option, none, some,
}
use process_control.Base.Int.{ℤ, pos, negsuc}
use process_control.Base.Chain.{Links, walk_last}
use process_control.Phase1.State.{State, max_proc, put_process, put_queue}

abbrev pub queue_links : State → Links
queue_links s = λ i. (s.process_table i).next_queue_node

-- An index of `runQueues`.
abbrev pub queue_index : ℤ → Option ℕ
queue_index (pos n) = if ltb n 8 then some n else none
queue_index (negsuc n) = none

-- The outcome of the walk of addToQueue.
pub data Walk : Type 0 where
  at_end : ℕ → Walk
  already : Walk
  endless : Walk

-- The last node is not compared with the new one.
unfoldable pub walk_to : ℕ → Links → ℕ → ℕ → Walk
walk_to zero next node current = endless
walk_to (suc fuel) next node current = elim (next current) [
  | none ↦ at_end current
  | some q ↦ let rest = walk_to fuel next node q in if current == node then already else rest
]

-- What a routine over the queues may end in, besides a state.
pub data Step : Type 0 where
  ok : State → Step
  bad_index : Step
  no_end : Step

abbrev pub set_next : ℕ → Option ℕ → State → State
set_next i q s = put_process i (record (s.process_table i) { next_queue_node = q }) s

abbrev pub set_prev : ℕ → Option ℕ → State → State
set_prev i q s = put_process i (record (s.process_table i) { prev_queue_node = q }) s

-- The three writes at the end of addToQueue.
abbrev pub link_behind : ℕ → ℕ → State → State
link_behind current node s =
    set_next node none (set_prev node (some current) (set_next current (some node) s))

unfoldable pub add_at : ℕ → ℕ → State → Step
add_at i node s = elim (s.run_queues i) [
  | none ↦ ok (put_queue i (some node) s)
  | some head ↦ elim (walk_to (max_proc + 1) (queue_links s) node head) [
    | at_end current ↦ ok (link_behind current node s)
    | already ↦ ok s
    | endless ↦ no_end
  ]
]

unfoldable pub add_to_queue : ℕ → State → Step
unfolding add_at
add_to_queue node s = elim (queue_index (s.process_table node).priority) [
  | none ↦ bad_index
  | some i ↦ add_at i node s
]

-- `node->prev->next = node->next`, `node->next->prev = node->prev`, and the head.
abbrev pub unlink_prev : ℕ → State → State
unlink_prev node s = elim (s.process_table node).prev_queue_node [
  | none ↦ s
  | some p ↦ set_next p (s.process_table node).next_queue_node s
]

abbrev pub unlink_next : ℕ → State → State
unlink_next node s = elim (s.process_table node).next_queue_node [
  | none ↦ s
  | some q ↦ set_prev q (s.process_table node).prev_queue_node s
]

abbrev pub is_head : ℕ → Option ℕ → Bool
is_head node none = false
is_head node (some h) = h == node

abbrev pub unlink_head : ℕ → ℕ → State → State
unlink_head i node s =
    if is_head node (s.run_queues i)
    then put_queue i (s.process_table node).next_queue_node s
    else s

unfoldable pub remove_at : ℕ → ℕ → State → State
remove_at i node s = elim (s.run_queues i) [
  | none ↦ s
  | some _ ↦ unlink_head i node (unlink_next node (unlink_prev node s))
]

unfoldable pub remove_node : ℕ → State → Step
unfolding remove_at
remove_node node s = elim (queue_index (s.process_table node).priority) [
  | none ↦ bad_index
  | some i ↦ ok (remove_at i node s)
]

-- The head becomes the last: `curProc->next = head; runQueues[i] = head->next; head->next = NULL;`
abbrev pub rotated : ℕ → ℕ → ℕ → State → State
rotated i head last s =
    let t = set_next last (some head) s in
    set_next head none (put_queue i (t.process_table head).next_queue_node t)

-- `bad_index` also stands for an empty queue, whose head the source reads through.
unfoldable pub rotate : ℕ → State → Step
rotate i s = elim (s.run_queues i) [
  | none ↦ bad_index
  | some head ↦ elim (walk_last (max_proc + 1) (queue_links s) head) [
    | none ↦ no_end
    | some last ↦ ok (rotated i head last s)
  ]
]
