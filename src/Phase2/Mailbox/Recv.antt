-- ===== src/Phase2/Mailbox/Recv.antt =====
-- MboxRecv of phase2/phase2.c. The caller's buffer is given by its room in bytes, with 0 for NULL,
-- and what is written there is part of the answer.
use process_control.Base.{
  ℕ, leb, if◌then◌else◌, Bool, false, not, Option, none, some, List, [], length, is_none,
}
use process_control.Base.Int.{ℤ, pos, minus_one, minus_three, ltb_ℤ, eqb_ℤ, ◌+ℤ◌, index_of}
use process_control.Base.Run.{done, yields, fault, out_of_fuel}
use process_control.Phase2.State.{
  Routine, State, max_mbox, sizeof_message, block_me, unblock_proc, put_mb, put_message,
  put_process,
}
use process_control.Phase2.Slots.{get_process}
use process_control.Phase2.Queue.{add_to_consumer_queue}
use process_control.Phase2.Mailbox.Send.{copy_in}

pub record Answer : Type 0 where
  pub code : ℤ
  pub received : List ℕ

abbrev pub answer : ℤ → List ℕ → Answer
answer c xs = record { code = c; received = xs }

-- The message is copied to the receiver's slot `cur`.
abbrev pub keep_copy : ℕ → ℕ → State → State
keep_copy cur m s =
    put_process cur (record (s.shadow_process_table cur) { message = some (s.message_slots m) }) s

-- Takes the message out: its slot is free, the heads of both queues move on, a slot is available.
abbrev pub take_out : ℕ → ℕ → ℕ → State → State
take_out b m c s =
    let t = put_message m (record (s.message_slots m) { is_initialized = false }) s in
    put_mb b
      (record (t.mb_table b) {
        consumer_queue_head = (t.shadow_process_table c).next_consumer_node;
        mail_slot_queue_head = (t.message_slots m).next_message;
        mail_slots_available = (t.mb_table b).mail_slots_available +ℤ pos 1;
      })
      t

-- `none` is a consumer queue with no head.
unfoldable pub take_message : ℕ → ℕ → State → Option State
take_message b m s = elim (s.mb_table b).consumer_queue_head [
  | none ↦ none
  | some c ↦ some (take_out b m c s)
]

-- The head of the producer queue is taken off and woken. The size is read after that.
unfoldable pub wake_producer : ℕ → ℕ → List ℕ → State → Routine Answer
wake_producer b m data' s = elim (s.mb_table b).producer_queue_head [
  | none ↦ done (answer (s.message_slots m).message_size_limit data') s
  | some p ↦
      let t =
        put_mb b
          (record (s.mb_table b) {
            producer_queue_head = (s.shadow_process_table p).next_producer_node;
          })
          s in
      yields (unblock_proc (t.shadow_process_table p).pid) t
        (λ _ u. done (answer (u.message_slots m).message_size_limit data') u)
]

-- Copies the message out and takes it; `cur` is the receiver's slot.
unfoldable pub collect : (ℤ → Bool) → ℕ → ℕ → ℕ → ℕ → State → Routine Answer
unfolding take_message wake_producer copy_in
collect malloc b cur m room s =
    if not (malloc (pos sizeof_message))
    then fault s
    else let t = keep_copy cur m s in
      elim (t.message_slots m).message [
        | none ↦ fault t
        | some source ↦ elim (copy_in source (t.message_slots m).message_size_limit) [
          | none ↦ fault t
          | some data' ↦
              if not (leb (length data') room)
              then fault t
              else elim (take_message b m t) [ none ↦ fault t | some u ↦ wake_producer b m data' u ]
        ]
      ]

-- The head of the mail queue is looked at; one that is too large stays.
unfoldable pub recv_slot : (ℤ → Bool) → ℕ → ℕ → ℕ → ℤ → State → Routine Answer
unfolding collect
recv_slot malloc b cur room max_size s = elim (s.mb_table b).mail_slot_queue_head [
  | none ↦ fault s
  | some m ↦
      if ltb_ℤ max_size (s.message_slots m).message_size_limit
      then done (answer minus_one []) s
      else collect malloc b cur m room s
]

-- The end of a receive from a mailbox without slots.
unfoldable pub recv_meet : ℕ → ℕ → State → Routine Answer
recv_meet b cur s = elim (s.mb_table b).consumer_queue_head [
  | none ↦ fault s
  | some c ↦
      let rest = (s.shadow_process_table c).next_consumer_node in
      let t = put_mb b (record (s.mb_table b) { consumer_queue_head = rest }) s in
      done (answer (pos 0) [])
        (put_process cur (record (t.shadow_process_table cur) { message = none }) t)
]

-- `blockMe(8000)`, and -3 if the mailbox is gone when the receiver goes on.
unfoldable pub wait_then : Bool → ℕ → (State → Routine Answer) → State → Routine Answer
wait_then wait b next s =
    if wait
    then yields (block_me 8000) s (λ _ t.
      if not (t.mb_table b).is_initialized then done (answer minus_three []) t else next t)
    else next s

unfoldable pub recv_open : (ℤ → Bool) → ℕ → ℕ → ℕ → ℤ → State → Routine Answer
unfolding recv_slot recv_meet wait_then
recv_open malloc me b room max_size s =
    let (cur, t) = get_process me s in
    elim (add_to_consumer_queue me b t) [
      | none ↦ out_of_fuel t
      | some u ↦
          let mb = u.mb_table b in
          if eqb_ℤ mb.mail_slot_limit (pos 0)
          then wait_then (is_none mb.producer_queue_head) b (recv_meet b cur) u
          else wait_then (is_none mb.mail_slot_queue_head) b (recv_slot malloc b cur room max_size)
              u
    ]

unfoldable pub mbox_recv : (ℤ → Bool) → ℕ → ℤ → ℕ → ℤ → State → Routine Answer
unfolding recv_open
mbox_recv malloc me mbox_id room max_size s = elim (index_of max_mbox mbox_id) [
  | none ↦ fault s
  | some b ↦
      if (s.mb_table b).released
      then done (answer minus_one []) s
      else if not (s.mb_table b).is_initialized
      then done (answer minus_three []) s
      else recv_open malloc me b room max_size s
]
