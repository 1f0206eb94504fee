-- ===== src/Phase2/Mailbox/Queueing.antt =====
-- MboxCondSend and MboxCondRecv of phase2/phase2.c as the two ends of a queue of payloads.
use process_control.Base.{
  ℕ, zero, suc, ◌%◌, ◌≤◌, ◌<◌, ◌≡◌, ◌∙◌, refl, ◌≢◌, ◌⊎◌, inl, inr, Bool, true, false, none, some,
  List, [], ◌∷◌, ◌++◌, arith, length, take, leb, sym, subst,
}
use process_control.Base.Int.{ℤ, pos, ◌+ℤ◌, ltb_ℤ}
use process_control.Base.Chain.{Chain, Chain-frame}
use process_control.Base.Run.{done}
use process_control.Phase2.State.{Pointer, State, max_mbox, max_proc, max_slots, sizeof_message}
use process_control.Phase2.Slots.{find_open_message_slot, get_process}
use process_control.Phase2.Slots.Search.{AtCounter, in_use, find_open_message_slot_lem}
use process_control.Phase2.Mailbox.Send.{copy_in}
use process_control.Phase2.Mailbox.Recv.{
  answer, collect, take_message, wake_producer, keep_copy, take_out,
}
use process_control.Phase2.Mailbox.Cond.{
  cond_deliver, cond_enqueue, cond_send_new, cond_send_refusal, mbox_cond_send, mbox_cond_recv,
}
use process_control.Phase2.Mailbox.Contents.{Contents-frame, Holds, fill, fill-append}
use process_control.Phase2.Queue.{add_to_consumer_queue, mail_links, set_consumer_head}
use native.Mathlib.Nat.{mod-eq_of_lt}

length-take : (n : ℕ) (ds : List ℕ) → n ≤ length ds → length (take n ds) ≡ n
length-take zero ds h = omega arith
length-take (suc n) [] h = absurd (omega arith)
length-take (suc n) (d ∷ ds) h = omega (arith, length-take n ds)

take-length : (ds : List ℕ) → take (length ds) ds ≡ ds
take-length [] = refl
take-length (d ∷ ds) = rw (take-length ds)

-- A send of `n` bytes that the mailbox takes at once, with no consumer waiting.
pub record CanSend (malloc : ℤ → Bool) (s : State) (b : ℕ) (ptr : Pointer) (n : ℕ) : Type 0 where
  pub in_range : b < max_mbox
  pub not_null : (n ≡ 0) ⊎ (ptr.address ≢ 0)
  pub readable : n ≤ length ptr.bytes
  pub small : ltb_ℤ (s.mb_table b).message_size_limit (pos n) ≡ false
  pub available : ltb_ℤ (pos 0) (s.mb_table b).mail_slots_available ≡ true
  pub alone : (s.mb_table b).consumer_queue_head ≡ none
  pub memory : malloc (pos n) ≡ true
  pub slot : (i : ℕ) × (i < max_slots) × (in_use s i ≡ false)

module _ (malloc : ℤ → Bool) (s : State) (b : ℕ) (ptr : Pointer) (n : ℕ) {xs : List ℕ}
    {q : List (List ℕ)} (h : Holds s b xs q) (can : CanSend malloc s b ptr n) where
  copied : copy_in ptr.bytes (pos n) ≡ some (take n ptr.bytes)
  unfolding copy_in
  copied = ground (arith, can.readable)

  -- The part behind the search, at the slot that it found.
  cond_send_new-fill :
      (c m : ℕ) (u : State)
      → (find_open_message_slot s).0 ≡ some m
      → (find_open_message_slot s).1 ≡ record s { message_id_counter = c }
      → cond_enqueue b m (fill c m (take n ptr.bytes) n s) ≡ done (pos 0) u
      → cond_send_new malloc b ptr (pos n) s ≡ done (pos 0) u
  unfolding cond_send_new
  cond_send_new-fill c m u e e' run =
      rw (e, cond_send_new, e', can.available, can.memory, copied, e', can.alone, cond_deliver, e')
        run

  cond_send_refusal-none : cond_send_refusal (s.mb_table b) ptr (pos n) ≡ none
  unfolding cond_send_refusal
  cond_send_refusal-none = ground (arith, can.not_null, can.small, h.is_open)

  -- MboxCondSend to an open mailbox that has a slot available, with no consumer waiting and fewer
  -- than MAXSLOTS messages in its queue, puts the `n` bytes of the message behind the payloads that
  -- the mailbox holds and returns 0. The number of the mailbox is below MAXMBOX, the pointer is not
  -- NULL unless `n` is 0, the bytes can be read, `n` is within the mailbox's limit, one of the 2500
  -- message slots is free, and malloc gives the memory.
  pub mbox_cond_send-append :
      length xs < max_slots
      → (u : State) × (m : ℕ) × (mbox_cond_send malloc (pos b) ptr (pos n) s ≡ done (pos 0) u)
        × Holds u b (xs ++ m ∷ []) (q ++ take n ptr.bytes ∷ [])
  unfolding mbox_cond_send cond_enqueue
  mbox_cond_send-append room = go (find_open_message_slot_lem s)
    where
      go :
          let r = find_open_message_slot s in
          ((m : ℕ) × (r.0 ≡ some m) × AtCounter s m r.1)
            ⊎ ((r.0 ≡ none)
                × (r.1 ≡ record s { message_id_counter = r.1.message_id_counter })
                × ((j : ℕ) → j < max_slots → in_use s j ≡ true))
          → (u : State) × (m : ℕ) × (mbox_cond_send malloc (pos b) ptr (pos n) s ≡ done (pos 0) u)
            × Holds u b (xs ++ m ∷ []) (q ++ take n ptr.bytes ∷ [])
      go (inr full) = cc (full.2 can.slot.0 can.slot.1)
      go (inl (m, e, a)) =
          let c = (find_open_message_slot s).1.message_id_counter in
          let here : b % max_mbox ≡ b = mod-eq_of_lt can.in_range in
          let (u, run, holds) =
            fill-append s b xs q h c m n (take n ptr.bytes) a.0
              (length-take n ptr.bytes can.readable) room in
          (
            u,
            m,
            rw (here, mbox_cond_send, cond_send_refusal-none, here)
                (cond_send_new-fill c m u e a.3 (rw (run, cond_enqueue))),
            holds,
          )

-- A receive that finds a message and room for it, with no other consumer and no producer waiting.
pub record CanRecv (malloc : ℤ → Bool) (s : State) (b me room : ℕ) (d : List ℕ) : Type 0 where
  pub in_range : b < max_mbox
  pub consumers : (s.mb_table b).consumer_queue_head ≡ none
  pub producers : (s.mb_table b).producer_queue_head ≡ none
  pub memory : malloc (pos sizeof_message) ≡ true
  pub fits : length d ≤ room

copy_in-length : (d : List ℕ) → copy_in d (pos (length d)) ≡ some d
unfolding copy_in
copy_in-length d = ground (arith, take-length d)

-- A receive up to the wake-up, at a message with its payload and room for it.
collect-wake_producer :
    (malloc : ℤ → Bool) (b cur m room : ℕ) (d : List ℕ) (t u : State)
    → malloc (pos sizeof_message) ≡ true
    → (t.message_slots m).message ≡ some d
    → (t.message_slots m).message_size_limit ≡ pos (length d)
    → length d ≤ room
    → take_message b m (keep_copy cur m t) ≡ some u
    → collect malloc b cur m room t ≡ wake_producer b m d u
unfolding collect
collect-wake_producer malloc b cur m room d t u memory p z fits took =
    let roomy : leb (length d) room ≡ true = ground arith in
    simp (memory, p, z, copy_in-length d, roomy, took)

wake_producer-none :
    (b m : ℕ) (d : List ℕ) (u : State)
    → (u.mb_table b).producer_queue_head ≡ none
    → (u.message_slots m).message_size_limit ≡ pos (length d)
    → wake_producer b m d u ≡ done (answer (pos (length d)) d) u
unfolding wake_producer
wake_producer-none b m d u none' z = simp (none', z, wake_producer)

take_message-take_out :
    (b m c : ℕ) (s : State)
    → (s.mb_table b).consumer_queue_head ≡ some c
    → take_message b m s ≡ some (take_out b m c s)
unfolding take_message
take_message-take_out b m c s e = simp (e, take_message)

module _ (malloc : ℤ → Bool) (b cur room : ℕ) {x : ℕ} {xs : List ℕ} {d : List ℕ} {q : List (List ℕ)}
    (t : State) (h : Holds t b (x ∷ xs) (d ∷ q)) where
  -- What a receive leaves of the queue.
  take_out-Holds : Holds (take_out b x cur (keep_copy cur x t)) b xs q
  take_out-Holds = record {
    mail = record {
      chain =
          let head : ((take_out b x cur (keep_copy cur x t)).mb_table b).mail_slot_queue_head
              ≡ mail_links t x =
            ground arith in
          subst (λ k. Chain (mail_links (take_out b x cur (keep_copy cur x t))) k xs) (sym head)
            (Chain-frame (mail_links t) (mail_links (take_out b x cur (keep_copy cur x t))) _ xs
              (λ i k. ground arith) h.mail.chain.1);
      distinct = h.mail.distinct.1;
      short = omega (arith, h.mail.short);
    };
    contents =
        Contents-frame t (take_out b x cur (keep_copy cur x t)) xs q
          (λ i k. (ground (arith, h.mail.distinct.0), ground arith, ground arith)) h.contents.3;
    is_open = ground (arith, h.is_open);
  }

  collect-head :
      malloc (pos sizeof_message) ≡ true
      → length d ≤ room
      → (t.mb_table b).consumer_queue_head ≡ some cur
      → (t.mb_table b).producer_queue_head ≡ none
      → collect malloc b cur x room t
        ≡ done (answer (pos (length d)) d) (take_out b x cur (keep_copy cur x t))
  collect-head memory fits c p =
      collect-wake_producer malloc b cur x room d t (take_out b x cur (keep_copy cur x t)) memory
        h.contents.1 h.contents.2 fits (take_message-take_out b x cur (keep_copy cur x t) c)
      ∙ wake_producer-none b x d (take_out b x cur (keep_copy cur x t)) (ground arith)
          (ground (arith, h.contents.2))

-- A receive that does not wait, up to the copy.
mbox_cond_recv-collect :
    (malloc : ℤ → Bool) (me b cur room : ℕ) (max_size : ℤ) (x : ℕ) (s g u : State)
    → b < max_mbox
    → (get_process me s).0 ≡ cur
    → (get_process me s).1 ≡ g
    → (g.mb_table b).is_initialized ≡ true
    → (g.mb_table b).mail_slot_queue_head ≡ some x
    → add_to_consumer_queue me b g ≡ some u
    → (u.mb_table b).mail_slot_queue_head ≡ some x
    → mbox_cond_recv malloc me (pos b) room max_size s ≡ collect malloc b cur x room u
unfolding mbox_cond_recv
mbox_cond_recv-collect malloc me b cur room max_size x s g u range here made o m added m' =
    let slot : b % max_mbox ≡ b = mod-eq_of_lt range in
    simp (slot, made, o, m, added, m') (λ i. collect malloc (slot i) (here i) x room u)

get_process_twice :
    (me : ℕ) (s : State) → (get_process me (get_process me s).1).1 ≡ (get_process me s).1
unfolding get_process
get_process_twice me s = ground arith

-- The receiver alone in the consumer queue.
abbrev queued : ℕ → ℕ → State → State
queued b me s = set_consumer_head b (me % max_proc) (get_process me s).1

module _ (malloc : ℤ → Bool) (s : State) (b me room : ℕ) (max_size : ℤ) {x : ℕ} {xs : List ℕ}
    {d : List ℕ} {q : List (List ℕ)} (h : Holds s b (x ∷ xs) (d ∷ q))
    (can : CanRecv malloc s b me room d) where
  queued-Holds : Holds (queued b me s) b (x ∷ xs) (d ∷ q)
  unfolding get_process
  queued-Holds = record {
    mail = record {
      chain = (
        ground (arith, h.mail.chain.0),
        Chain-frame (mail_links s) (mail_links (queued b me s)) _ xs (λ i k. ground arith)
            (ground (arith, h.mail.chain.1)),
      );
      distinct = h.mail.distinct;
      short = h.mail.short;
    };
    contents =
        Contents-frame s (queued b me s) (x ∷ xs) (d ∷ q)
          (λ i k. (ground arith, ground arith, ground arith)) h.contents;
    is_open = ground (arith, h.is_open);
  }

  -- MboxCondRecv from an open mailbox with a message, where no other process waits, returns the
  -- size of the oldest payload, and not 0, hands that payload over, frees its slot, leaves the rest
  -- and makes one more slot available. The number of the mailbox is below MAXMBOX, the receiver's
  -- buffer has room for the payload, and malloc gives the memory for the copy.
  pub mbox_cond_recv-head :
      (u : State) × (mbox_cond_recv malloc me (pos b) room max_size s
        ≡ done (answer (pos (length d)) d) u)
      × Holds u b xs q
      × (in_use u x ≡ false)
      × ((u.mb_table b).mail_slots_available ≡ (s.mb_table b).mail_slots_available +ℤ pos 1)
  unfolding get_process add_to_consumer_queue
  mbox_cond_recv-head =
      let cur = me % max_proc in
      let t = queued b me s in
      let heads : ((get_process me s).1.mb_table b).consumer_queue_head ≡ none =
        ground (arith, can.consumers) in
      (
        take_out b x cur (keep_copy cur x t),
        mbox_cond_recv-collect malloc me b cur room max_size x s (get_process me s).1 t can.in_range
              refl refl (ground (arith, h.is_open)) (ground (arith, h.mail.chain.0))
              (simp (heads, add_to_consumer_queue, get_process_twice me s))
              (ground (arith, h.mail.chain.0))
            ∙ collect-head malloc b cur room t queued-Holds can.memory can.fits (ground arith)
                (ground (arith, can.producers)),
        take_out-Holds malloc b cur room t queued-Holds,
        ground arith,
        ground arith,
      )
