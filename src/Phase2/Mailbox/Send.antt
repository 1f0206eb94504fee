-- ===== src/Phase2/Mailbox/Send.antt =====
-- MboxSend of phase2/phase2.c, cut where it blocks: what follows `blockMe` is the continuation.
use process_control.Base.{
  ℕ, zero, suc, ◌%◌, ◌/◌, ◌==◌, ltb, leb, if◌then◌else◌, Bool, true, ◌&&◌, not, Option, none, some,
  List, [], ◌∷◌, length, take, is_none,
}
use process_control.Base.Int.{
  ℤ, pos, negsuc, minus_one, minus_two, minus_three, ltb_ℤ, eqb_ℤ, index_of,
}
use process_control.Base.Run.{done, yields, fault, out_of_fuel}
use process_control.Phase2.State.{
  Mb, Message, Pointer, Routine, State, max_mbox, block_me, unblock_proc, put_mb, put_message,
  put_process,
}
use process_control.Phase2.Slots.{find_open_message_slot, get_process}
use process_control.Phase2.Queue.{add_to_mail_queue, add_to_producer_queue}

-- The value of a pointer as the bytes that it is stored in, the lowest first.
unfoldable pub bytes_of : ℕ → ℕ → List ℕ
bytes_of zero n = []
bytes_of (suc k) n = (n % 256) ∷ bytes_of k (n / 256)

-- `memcpy` of `size` bytes; `none` reads past the end.
unfoldable pub copy_in : List ℕ → ℤ → Option (List ℕ)
copy_in source (pos n) = if leb n (length source) then some (take n source) else none
copy_in source (negsuc n) = none

-- A mailbox of a device takes the pointer itself as the data, any other what it points at.
unfoldable pub payload : ℕ → Pointer → ℤ → Option (List ℕ)
unfolding copy_in bytes_of
payload id ptr size = copy_in (if ltb id 7 then bytes_of 8 ptr.address else ptr.bytes) size

-- The slot once `isInitialized` is set and `malloc` has failed, and once it is filled.
abbrev pub claimed : Message → Message
claimed m = record m { is_initialized = true; message = none }

abbrev pub filled : Message → List ℕ → ℤ → Message
filled m data' size = record m {
  is_initialized = true;
  message = some data';
  message_size_limit = size;
  next_message = none;
  prev_message = none;
}

-- Wakes the head of the consumer queue and leaves it there.
unfoldable pub wake_consumer : ℕ → State → Routine ℤ
wake_consumer b s = elim (s.mb_table b).consumer_queue_head [
  | none ↦ done (pos 0) s
  | some c ↦ yields (unblock_proc (s.shadow_process_table c).pid) s (λ _ t. done (pos 0) t)
]

-- The end of a send to a mailbox with slots.
unfoldable pub deliver : ℕ → ℕ → State → Routine ℤ
deliver b m s = elim (add_to_mail_queue b m s) [ none ↦ out_of_fuel s | some t ↦ wake_consumer b t ]

-- A full mailbox: the sender waits once and does not look at the slots again.
unfoldable pub send_slot : ℕ → ℕ → ℕ → State → Routine ℤ
send_slot me b m s =
    if ltb_ℤ (pos 0) (s.mb_table b).mail_slots_available
    then deliver b m s
    else elim (add_to_producer_queue me b s) [
      | none ↦ out_of_fuel s
      | some t ↦
          yields (block_me 8000) t
            (λ _ u. if not (u.mb_table b).is_initialized then done minus_three u else deliver b m u)
    ]

-- `unblockProc(mb->consumerQueueHead->PID)` with no test of the head.
unfoldable pub wake_consumer_or_fault : ℕ → State → Routine ℤ
wake_consumer_or_fault b s = elim (s.mb_table b).consumer_queue_head [
  | none ↦ fault s
  | some c ↦ yields (unblock_proc (s.shadow_process_table c).pid) s (λ _ t. done (pos 0) t)
]

-- The head of the producer queue, which is in slot `head`, moves on; `producer` is the sender's slot.
abbrev pub met : ℕ → ℕ → ℕ → State → State
met b head producer s =
    let rest = (s.shadow_process_table head).next_producer_node in
    let t = put_mb b (record (s.mb_table b) { producer_queue_head = rest }) s in
    put_process producer (record (t.shadow_process_table producer) { message = none }) t

-- The end of a send to a mailbox without slots.
unfoldable pub send_meet : ℕ → ℕ → State → Routine ℤ
send_meet b producer s = elim (s.mb_table b).producer_queue_head [
  | none ↦ fault s
  | some head ↦ wake_consumer_or_fault b (met b head producer s)
]

unfoldable pub send_zero : ℕ → ℕ → State → Routine ℤ
send_zero me b s = elim (add_to_producer_queue me b s) [
  | none ↦ out_of_fuel s
  | some t ↦
      let (producer, u) = get_process me t in
      if is_none (u.mb_table b).consumer_queue_head
      then yields (block_me 8000) u (λ _ v.
        if not (v.mb_table b).is_initialized then done minus_three v else send_meet b producer v)
      else send_meet b producer u
]

-- The message has its slot `m`.
unfoldable pub send_message : (ℤ → Bool) → ℕ → ℕ → ℕ → Pointer → ℤ → State → Routine ℤ
send_message malloc me b m ptr size s =
    if not (malloc size)
    then done minus_one (put_message m (claimed (s.message_slots m)) s)
    else elim (payload (s.mb_table b).id ptr size) [
      | none ↦ fault (put_message m (claimed (s.message_slots m)) s)
      | some data' ↦
          let t = put_message m (filled (s.message_slots m) data' size) s in
          if eqb_ℤ (t.mb_table b).mail_slot_limit (pos 0)
          then send_zero me b t
          else send_slot me b m t
    ]

-- The message before it has a slot.
unfoldable pub send_new : (ℤ → Bool) → ℕ → ℕ → Pointer → ℤ → State → Routine ℤ
send_new malloc me b ptr size s =
    let (slot, t) = find_open_message_slot s in
    elim slot [ none ↦ done minus_two t | some m ↦ send_message malloc me b m ptr size t ]

-- The guards, in the order of the source.
unfoldable pub send_refusal : Mb → Pointer → ℤ → Option ℤ
send_refusal mb ptr size =
    if mb.released
    then some minus_one
    else if not mb.is_initialized
    then some minus_three
    else if not (eqb_ℤ size (pos 0)) && (ptr.address == 0)
    then some minus_one
    else if ltb_ℤ mb.message_size_limit size
    then some minus_one
    else none

unfoldable pub mbox_send : (ℤ → Bool) → ℕ → ℤ → Pointer → ℤ → State → Routine ℤ
mbox_send malloc me mbox_id ptr size s = elim (index_of max_mbox mbox_id) [
  | none ↦ fault s
  | some b ↦ elim (send_refusal (s.mb_table b) ptr size) [
    | some code ↦ done code s
    | none ↦ send_new malloc me b ptr size s
  ]
]
