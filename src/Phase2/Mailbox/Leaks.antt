-- ===== src/Phase2/Mailbox/Leaks.antt =====
-- What MboxSend and MboxRecv of phase2/phase2.c leave behind on two of their paths.
use process_control.Base.{
  ℕ, ◌%◌, ◌<◌, ◌≡◌, ◌∙◌, ap, refl, ◌≢◌, ◌⊎◌, inl, inr, Bool, true, false, none, some, List, [], ◌∷◌,
  ◌++◌, arith, has, is_none,
}
use process_control.Base.Int.{ℤ, pos, minus_one, ltb_ℤ, eqb_ℤ}
use process_control.Base.Chain.{Chain}
use process_control.Base.Run.{done, yields}
use process_control.Phase2.State.{
  Mb, Message, Pointer, State, max_mbox, max_proc, max_slots, unblock_proc, put_message,
}
use process_control.Phase2.Slots.{find_open_message_slot, get_process}
use process_control.Phase2.Slots.Search.{AtCounter, in_use, find_open_message_slot_lem}
use process_control.Phase2.Queue.{
  add_to_consumer_queue, add_to_producer_queue, consumer_links, set_producer_head,
}
use process_control.Phase2.Queue.Waiters.{HasConsumers, add_to_consumer_queue-append}
use process_control.Phase2.Mailbox.Send.{
  filled, mbox_send, met, wake_consumer_or_fault, payload, send_message, send_meet, send_new,
  send_refusal, send_zero,
}
use process_control.Phase2.Mailbox.Recv.{answer, mbox_recv, recv_open, recv_slot, wait_then}
use native.Mathlib.Nat.{mod-eq_of_lt}

-- The receiver `me` has its slot of the shadow table, is in no queue and can queue.
pub record CanQueue (s : State) (b me : ℕ) (xs : List ℕ) : Type 0 where
  pub known : (s.shadow_process_table (me % max_proc)).pid ≡ me
  pub absent : has (me % max_proc) xs ≡ false
  pub unlinked : (s.shadow_process_table (me % max_proc)).next_consumer_node ≡ none

get_process-known :
    (me : ℕ) (s : State)
    → (s.shadow_process_table (me % max_proc)).pid ≡ me
    → (get_process me s).1 ≡ s
unfolding get_process
get_process-known me s known = ground arith

-- The steps of a receive that does not wait, from an open mailbox with slots.
mbox_recv-recv_slot :
    (malloc : ℤ → Bool) (me b room : ℕ) (max_size : ℤ) (m : ℕ) (s t : State)
    → b < max_mbox
    → (s.mb_table b).released ≡ false
    → (s.mb_table b).is_initialized ≡ true
    → (get_process me s).1 ≡ s
    → add_to_consumer_queue me b s ≡ some t
    → eqb_ℤ (t.mb_table b).mail_slot_limit (pos 0) ≡ false
    → (t.mb_table b).mail_slot_queue_head ≡ some m
    → ltb_ℤ max_size (t.message_slots m).message_size_limit ≡ true
    → mbox_recv malloc me (pos b) room max_size s ≡ done (answer minus_one []) t
unfolding mbox_recv recv_open recv_slot wait_then
mbox_recv-recv_slot malloc me b room max_size m s t range live ready known added slots head big =
    let slot : b % max_mbox ≡ b = mod-eq_of_lt range in
    simp (slot, live, ready, recv_open, known, added, slots, wait_then, head, recv_slot, big)

module _ (malloc : ℤ → Bool) (s : State) (b me room : ℕ) (max_size : ℤ) (m : ℕ) {xs : List ℕ}
    (range : b < max_mbox) (live : (s.mb_table b).released ≡ false)
    (ready : (s.mb_table b).is_initialized ≡ true)
    (slots : eqb_ℤ (s.mb_table b).mail_slot_limit (pos 0) ≡ false)
    (head : (s.mb_table b).mail_slot_queue_head ≡ some m)
    (big : ltb_ℤ max_size (s.message_slots m).message_size_limit ≡ true) (q : HasConsumers s b xs)
    (can : CanQueue s b me xs) where
  -- MboxRecv that refuses a message larger than the caller's limit returns -1 and leaves the caller
  -- in the consumer queue, behind those that wait, although it does not wait.
  pub mbox_recv-stays_queued :
      (t : State) × (mbox_recv malloc me (pos b) room max_size s ≡ done (answer minus_one []) t)
      × Chain (consumer_links t) (t.mb_table b).consumer_queue_head (xs ++ (me % max_proc) ∷ [])
  mbox_recv-stays_queued =
      let known = get_process-known me s can.known in
      let (t, added, chain, messages, others, here) =
        add_to_consumer_queue-append s b me xs q can.absent (
          ap (λ (u : State). (u.shadow_process_table (me % max_proc)).next_consumer_node) known
          ∙ can.unlinked) in
      (
        t,
        mbox_recv-recv_slot malloc me b room max_size m s t range live ready known added
            (ap (λ (n : Mb). eqb_ℤ n.mail_slot_limit (pos 0)) here ∙ slots)
            (ap (λ (n : Mb). n.mail_slot_queue_head) here ∙ head)
            (ap (λ (f : ℕ → Message). ltb_ℤ max_size (f m).message_size_limit) messages ∙ big),
        chain,
      )

-- A send of `n` bytes to an open mailbox without slots, at which a consumer waits in slot `c` and no
-- producer; the sender has its entry and a message slot is free.
pub record CanMeet (malloc : ℤ → Bool) (s : State) (b me c n : ℕ) (ptr : Pointer) : Type 0 where
  pub in_range : b < max_mbox
  pub live : (s.mb_table b).released ≡ false
  pub ready : (s.mb_table b).is_initialized ≡ true
  pub no_slots : (s.mb_table b).mail_slot_limit ≡ pos 0
  pub not_null : (n ≡ 0) ⊎ (ptr.address ≢ 0)
  pub small : ltb_ℤ (s.mb_table b).message_size_limit (pos n) ≡ false
  pub readable : (d : List ℕ) × (payload (s.mb_table b).id ptr (pos n) ≡ some d)
  pub memory : malloc (pos n) ≡ true
  pub consumer : (s.mb_table b).consumer_queue_head ≡ some c
  pub alone : (s.mb_table b).producer_queue_head ≡ none
  pub known : (s.shadow_process_table (me % max_proc)).pid ≡ me
  pub free : (i : ℕ) × (i < max_slots) × (in_use s i ≡ false)

wake_consumer_or_fault-some :
    (b c : ℕ) (s : State)
    → (s.mb_table b).consumer_queue_head ≡ some c
    → wake_consumer_or_fault b s
      ≡ yields (unblock_proc (s.shadow_process_table c).pid) s (λ _ t. done (pos 0) t)
unfolding wake_consumer_or_fault
wake_consumer_or_fault-some b c s e = simp (e, wake_consumer_or_fault)

send_meet-wake :
    (b producer p : ℕ) (t : State)
    → (t.mb_table b).producer_queue_head ≡ some p
    → send_meet b producer t ≡ wake_consumer_or_fault b (met b p producer t)
unfolding send_meet
send_meet-wake b producer p t head = simp (head, send_meet)

-- The steps of such a send, each from a state that the step before left.
send_zero-wake :
    (b me p : ℕ) (s t : State)
    → add_to_producer_queue me b s ≡ some t
    → (get_process me t).0 ≡ me % max_proc
    → (get_process me t).1 ≡ t
    → is_none (t.mb_table b).consumer_queue_head ≡ false
    → (t.mb_table b).producer_queue_head ≡ some p
    → send_zero me b s ≡ wake_consumer_or_fault b (met b p (me % max_proc) t)
unfolding send_zero
send_zero-wake b me p s t added slot known waits head =
    simp (added, known, send_zero, waits, slot) (send_meet-wake b (me % max_proc) p t head)

mbox_send-send_zero :
    (malloc : ℤ → Bool) (me b m n : ℕ) (ptr : Pointer) (d : List ℕ) (s t : State)
    → b < max_mbox
    → send_refusal (s.mb_table b) ptr (pos n) ≡ none
    → (find_open_message_slot s).0 ≡ some m
    → (find_open_message_slot s).1 ≡ t
    → malloc (pos n) ≡ true
    → payload (t.mb_table b).id ptr (pos n) ≡ some d
    → (t.mb_table b).mail_slot_limit ≡ pos 0
    → mbox_send malloc me (pos b) ptr (pos n) s
      ≡ send_zero me b (put_message m (filled (t.message_slots m) d (pos n)) t)
unfolding mbox_send send_new send_message
mbox_send-send_zero malloc me b m n ptr d s t range open' found after memory copied zero' =
    let slot : b % max_mbox ≡ b = mod-eq_of_lt range in
    simp (slot, mbox_send, open', send_new, found, after, send_message, memory, copied, zero')

first_producer :
    (me b : ℕ) (s : State)
    → (s.shadow_process_table (me % max_proc)).pid ≡ me
    → (s.mb_table b).producer_queue_head ≡ none
    → add_to_producer_queue me b s ≡ some (set_producer_head b (me % max_proc) s)
unfolding add_to_producer_queue get_process
first_producer me b s known alone =
    simp (alone, add_to_producer_queue, get_process-known me s known)

can-send_refusal :
    (malloc : ℤ → Bool) (s : State) (b me c n : ℕ) (ptr : Pointer)
    → CanMeet malloc s b me c n ptr
    → send_refusal (s.mb_table b) ptr (pos n) ≡ none
unfolding send_refusal
can-send_refusal malloc s b me c n ptr can =
    ground (arith, can.live, can.ready, can.not_null, can.small)

-- The state of the send when it wakes the consumer, from the counter and the slot of the search.
abbrev meeting : State → ℕ → ℕ → ℕ → ℕ → List ℕ → ℕ → State
meeting s b me counter m d n =
    let t = record s { message_id_counter = counter } in
    let u = put_message m (filled (t.message_slots m) d (pos n)) t in
    met b (me % max_proc) (me % max_proc) (set_producer_head b (me % max_proc) u)

module _ (malloc : ℤ → Bool) (s : State) (b me c n : ℕ) (ptr : Pointer)
    (can : CanMeet malloc s b me c n ptr) where
  send-wake :
      (m : ℕ)
      → (find_open_message_slot s).0 ≡ some m
      → AtCounter s m (find_open_message_slot s).1
      → mbox_send malloc me (pos b) ptr (pos n) s
        ≡ wake_consumer_or_fault b
            (meeting s b me (find_open_message_slot s).1.message_id_counter m can.readable.0 n)
  unfolding get_process
  send-wake m found at =
      let d = can.readable.0 in
      let t = record s { message_id_counter = (find_open_message_slot s).1.message_id_counter } in
      let u = put_message m (filled (t.message_slots m) d (pos n)) t in
      mbox_send-send_zero malloc me b m n ptr d s t can.in_range
        (can-send_refusal malloc s b me c n ptr can) found at.3 can.memory can.readable.1
        can.no_slots
      ∙ send_zero-wake b me (me % max_proc) u (set_producer_head b (me % max_proc) u)
          (first_producer me b u can.known can.alone) refl
          (get_process-known me (set_producer_head b (me % max_proc) u) can.known)
          (ground (arith, can.consumer)) (ground arith)

  -- MboxSend to an open mailbox without slots at which a consumer waits and no producer takes a free
  -- message slot, wakes the consumer, returns 0, and leaves the slot in use: no mail queue changes and
  -- no other slot is freed, so that the slot is lost. The number of the mailbox is below MAXMBOX, the
  -- size is within its limit, the pointer is not NULL unless the size is 0, the bytes can be read,
  -- malloc gives the memory, a message slot is free, and the sender has its entry of the shadow table.
  pub mbox_send-loses_slot :
      (m : ℕ) × (u : State) × (mbox_send malloc me (pos b) ptr (pos n) s
        ≡ yields (unblock_proc (u.shadow_process_table c).pid) u (λ _ v. done (pos 0) v))
      × (in_use s m ≡ false)
      × (in_use u m ≡ true)
      × ((i : ℕ) → i ≢ m → u.message_slots i ≡ s.message_slots i)
      × ((a : ℕ) → (u.mb_table a).mail_slot_queue_head ≡ (s.mb_table a).mail_slot_queue_head)
  mbox_send-loses_slot = go (find_open_message_slot_lem s)
    where
      Lost : Type 0
      Lost =
          (m : ℕ) × (u : State) × (mbox_send malloc me (pos b) ptr (pos n) s
            ≡ yields (unblock_proc (u.shadow_process_table c).pid) u (λ _ v. done (pos 0) v))
          × (in_use s m ≡ false)
          × (in_use u m ≡ true)
          × ((i : ℕ) → i ≢ m → u.message_slots i ≡ s.message_slots i)
          × ((a : ℕ) → (u.mb_table a).mail_slot_queue_head ≡ (s.mb_table a).mail_slot_queue_head)

      go :
          let r = find_open_message_slot s in
          ((m : ℕ) × (r.0 ≡ some m) × AtCounter s m r.1)
            ⊎ ((r.0 ≡ none)
                × (r.1 ≡ record s { message_id_counter = r.1.message_id_counter })
                × ((j : ℕ) → j < max_slots → in_use s j ≡ true))
          → Lost
      go (inr full) = cc (full.2 can.free.0 can.free.1)
      go (inl (m, e, a)) =
          let u =
            meeting s b me (find_open_message_slot s).1.message_id_counter m can.readable.0 n in
          (
            m,
            u,
            send-wake m e a ∙ wake_consumer_or_fault-some b c u (ground (arith, can.consumer)),
            a.0,
            ground arith,
            λ i ne. ground arith,
            λ i. ground arith,
          )
