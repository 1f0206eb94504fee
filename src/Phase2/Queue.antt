-- ===== src/Phase2/Queue.antt =====
-- The three queues of a mailbox: addToProducerQueue, addToConsumerQueue and addToMailQueue of
-- phase2/phase2.c. `none` means that the walk to the end of a queue does not end.
pub mod Fifo
pub mod Waiters
pub mod Stale
use process_control.Base.{ℕ, ◌+◌, Bool, Option, none, some, update}
use process_control.Base.Int.{pos, negsuc, ◌+ℤ◌}
use process_control.Base.Chain.{Links, walk_last}
use process_control.Phase2.State.{max_proc, max_slots, State, put_mb, put_message, put_process}
use process_control.Phase2.Slots.{get_process}

abbrev pub producer_links : State → Links
producer_links s = λ i. (s.shadow_process_table i).next_producer_node

abbrev pub consumer_links : State → Links
consumer_links s = λ i. (s.shadow_process_table i).next_consumer_node

abbrev pub mail_links : State → Links
mail_links s = λ i. (s.message_slots i).next_message

abbrev pub set_producer_head : ℕ → ℕ → State → State
set_producer_head b p s = put_mb b (record (s.mb_table b) { producer_queue_head = some p }) s

abbrev pub set_next_producer : ℕ → ℕ → State → State
set_next_producer i q s =
    put_process i (record (s.shadow_process_table i) { next_producer_node = some q }) s

abbrev pub set_consumer_head : ℕ → ℕ → State → State
set_consumer_head b p s = put_mb b (record (s.mb_table b) { consumer_queue_head = some p }) s

abbrev pub set_next_consumer : ℕ → ℕ → State → State
set_next_consumer i q s =
    put_process i (record (s.shadow_process_table i) { next_consumer_node = some q }) s

-- `me` is `getpid()`. An acyclic queue has `max_proc` nodes at most.
unfoldable pub add_to_producer_queue : ℕ → ℕ → State → Option State
add_to_producer_queue me b s = elim (s.mb_table b).producer_queue_head [
  | none ↦ let (p, t) = get_process me s in some (set_producer_head b p t)
  | some head ↦ elim (walk_last (max_proc + 1) (producer_links s) head) [
    | none ↦ none
    | some end ↦ let (p, t) = get_process me s in some (set_next_producer end p t)
  ]
]

unfoldable pub add_to_consumer_queue : ℕ → ℕ → State → Option State
add_to_consumer_queue me b s = elim (s.mb_table b).consumer_queue_head [
  | none ↦ let (p, t) = get_process me s in some (set_consumer_head b p t)
  | some head ↦ elim (walk_last (max_proc + 1) (consumer_links s) head) [
    | none ↦ none
    | some end ↦ let (p, t) = get_process me s in some (set_next_consumer end p t)
  ]
]

abbrev take_slot : ℕ → State → State
take_slot b s =
    put_mb b
      (record (s.mb_table b) {
        mail_slots_available = (s.mb_table b).mail_slots_available +ℤ negsuc 0;
      })
      s

abbrev set_next_message : ℕ → Option ℕ → State → State
set_next_message i q s = put_message i (record (s.message_slots i) { next_message = q }) s

-- The message is the first of the queue, or stands behind `end`.
abbrev pub mail_first : ℕ → ℕ → State → State
mail_first b mes s =
    let t = take_slot b s in
    set_next_message mes none
      (put_mb b (record (t.mb_table b) { mail_slot_queue_head = some mes }) t)

abbrev pub mail_behind : ℕ → ℕ → ℕ → State → State
mail_behind b end mes s =
    set_next_message mes none (set_next_message end (some mes) (take_slot b s))

-- An acyclic queue has `max_slots` nodes at most.
unfoldable pub add_to_mail_queue : ℕ → ℕ → State → Option State
add_to_mail_queue b mes s = elim (s.mb_table b).mail_slot_queue_head [
  | none ↦ some (mail_first b mes s)
  | some head ↦ elim (walk_last (max_slots + 1) (mail_links s) head) [
    | none ↦ none
    | some end ↦ some (mail_behind b end mes s)
  ]
]
