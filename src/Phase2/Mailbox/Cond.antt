-- ===== src/Phase2/Mailbox/Cond.antt =====
-- MboxCondSend and MboxCondRecv of phase2/phase2.c, which never wait.
use process_control.Base.{ℕ, ◌==◌, if◌then◌else◌, Bool, ◌&&◌, not, Option, none, some, []}
use process_control.Base.Int.{ℤ, pos, minus_one, minus_two, ltb_ℤ, eqb_ℤ, index_of}
use process_control.Base.Run.{done, yields, fault, out_of_fuel}
use process_control.Phase2.State.{Mb, Pointer, Routine, State, max_mbox, unblock_proc, put_message}
use process_control.Phase2.Slots.{find_open_message_slot, get_process}
use process_control.Phase2.Queue.{add_to_consumer_queue, add_to_mail_queue}
use process_control.Phase2.Mailbox.Send.{claimed, copy_in, filled}
use process_control.Phase2.Mailbox.Recv.{Answer, answer, collect}

-- The guards, in the order of the source: `released` is not among them.
unfoldable pub cond_send_refusal : Mb → Pointer → ℤ → Option ℤ
cond_send_refusal mb ptr size =
    if not (eqb_ℤ size (pos 0)) && (ptr.address == 0)
    then some minus_one
    else if ltb_ℤ mb.message_size_limit size
    then some minus_one
    else if not mb.is_initialized
    then some minus_one
    else none

-- The message is put into the queue.
unfoldable pub cond_enqueue : ℕ → ℕ → State → Routine ℤ
cond_enqueue b m s = elim (add_to_mail_queue b m s) [
  | none ↦ out_of_fuel s
  | some t ↦ done (pos 0) t
]

-- A waiting consumer is woken before the message is in the queue.
unfoldable pub cond_deliver : ℕ → ℕ → State → Routine ℤ
unfolding cond_enqueue
cond_deliver b m s = elim (s.mb_table b).consumer_queue_head [
  | none ↦ cond_enqueue b m s
  | some c ↦ yields (unblock_proc (s.shadow_process_table c).pid) s (λ _ t. cond_enqueue b m t)
]

-- The message has its slot `m`.
unfoldable pub cond_send_message : (ℤ → Bool) → ℕ → ℕ → Pointer → ℤ → State → Routine ℤ
unfolding copy_in cond_deliver
cond_send_message malloc b m ptr size s =
    if not (malloc size)
    then done minus_one (put_message m (claimed (s.message_slots m)) s)
    else elim (copy_in ptr.bytes size) [
      | none ↦ fault (put_message m (claimed (s.message_slots m)) s)
      | some data' ↦ cond_deliver b m (put_message m (filled (s.message_slots m) data' size) s)
    ]

-- A free slot is looked for before the mailbox is asked for room.
unfoldable pub cond_send_new : (ℤ → Bool) → ℕ → Pointer → ℤ → State → Routine ℤ
unfolding cond_send_message
cond_send_new malloc b ptr size s =
    let (slot, t) = find_open_message_slot s in
    elim slot [
      | none ↦ done minus_two t
      | some m ↦
          if ltb_ℤ (pos 0) (t.mb_table b).mail_slots_available
          then cond_send_message malloc b m ptr size t
          else done minus_two t
    ]

unfoldable pub mbox_cond_send : (ℤ → Bool) → ℤ → Pointer → ℤ → State → Routine ℤ
unfolding cond_send_refusal cond_send_new
mbox_cond_send malloc mbox_id ptr size s = elim (index_of max_mbox mbox_id) [
  | none ↦ fault s
  | some b ↦ elim (cond_send_refusal (s.mb_table b) ptr size) [
    | some code ↦ done code s
    | none ↦ cond_send_new malloc b ptr size s
  ]
]

-- The size that the caller allows is an argument that the source does not read.
unfoldable pub mbox_cond_recv : (ℤ → Bool) → ℕ → ℤ → ℕ → ℤ → State → Routine Answer
unfolding collect
mbox_cond_recv malloc me mbox_id room max_size s = elim (index_of max_mbox mbox_id) [
  | none ↦ fault s
  | some b ↦
      let (cur, t) = get_process me s in
      if not (t.mb_table b).is_initialized
      then done (answer minus_one []) t
      else elim (t.mb_table b).mail_slot_queue_head [
        | none ↦ done (answer minus_two []) t
        | some _ ↦ elim (add_to_consumer_queue me b t) [
          | none ↦ out_of_fuel t
          | some u ↦ elim (u.mb_table b).mail_slot_queue_head [
            | none ↦ fault u
            | some m ↦ collect malloc b cur m room u
          ]
        ]
      ]
]
