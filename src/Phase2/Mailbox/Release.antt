-- ===== src/Phase2/Mailbox/Release.antt =====
-- MboxRelease of phase2/phase2.c: three loops over the queues of the mailbox. The head is read again
-- after each wake-up, in the state that the woken process left.
pub mod Wakes
use process_control.Base.{ℕ, zero, suc, ◌+◌, Bool, true, false, Option, none, some}
use process_control.Base.Int.{ℤ, pos, index_of}
use process_control.Base.Run.{done, yields, fault, out_of_fuel}
use process_control.Phase2.State.{
  Routine, State, max_mbox, max_proc, max_slots, unblock_proc, put_mb, put_message,
}

-- `none`: the fuel ran out.
unfoldable pub free_mail : ℕ → ℕ → State → Option State
free_mail zero b s = none
free_mail (suc fuel) b s = elim (s.mb_table b).mail_slot_queue_head [
  | none ↦ some s
  | some m ↦
      let t = put_message m (record (s.message_slots m) { is_initialized = false }) s in
      let rest = (t.message_slots m).next_message in
      free_mail fuel b (put_mb b (record (t.mb_table b) { mail_slot_queue_head = rest }) t)
]

unfoldable pub next_consumer : ℕ → State → Option State
next_consumer b s = elim (s.mb_table b).consumer_queue_head [
  | none ↦ none
  | some c ↦
      let rest = (s.shadow_process_table c).next_consumer_node in
      some (put_mb b (record (s.mb_table b) { consumer_queue_head = rest }) s)
]

unfoldable pub next_producer : ℕ → State → Option State
next_producer b s = elim (s.mb_table b).producer_queue_head [
  | none ↦ none
  | some p ↦
      let rest = (s.shadow_process_table p).next_producer_node in
      some (put_mb b (record (s.mb_table b) { producer_queue_head = rest }) s)
]

unfoldable pub wake_producers : ℕ → ℕ → State → Routine ℤ
unfolding next_producer
wake_producers zero b s = out_of_fuel s
wake_producers (suc fuel) b s = elim (s.mb_table b).producer_queue_head [
  | none ↦ done (pos 0) s
  | some p ↦
      yields (unblock_proc (s.shadow_process_table p).pid) s
        (λ _ t. elim (next_producer b t) [ none ↦ fault t | some u ↦ wake_producers fuel b u ])
]

unfoldable pub wake_consumers : ℕ → ℕ → State → Routine ℤ
unfolding next_consumer
wake_consumers zero b s = out_of_fuel s
wake_consumers (suc fuel) b s = elim (s.mb_table b).consumer_queue_head [
  | none ↦ wake_producers (max_proc + 1) b s
  | some c ↦
      yields (unblock_proc (s.shadow_process_table c).pid) s
        (λ _ t. elim (next_consumer b t) [ none ↦ fault t | some u ↦ wake_consumers fuel b u ])
]

-- The mailbox is closed before its queues are emptied.
abbrev pub mark_released : ℕ → State → State
mark_released b s = put_mb b (record (s.mb_table b) { is_initialized = false; released = true }) s

unfoldable pub mbox_release : ℤ → State → Routine ℤ
mbox_release mbox_id s = elim (index_of max_mbox mbox_id) [
  | none ↦ fault s
  | some b ↦ elim (free_mail (max_slots + 1) b (mark_released b s)) [
    | none ↦ out_of_fuel s
    | some t ↦ wake_consumers (max_proc + 1) b t
  ]
]
