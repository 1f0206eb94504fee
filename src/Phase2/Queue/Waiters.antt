-- ===== src/Phase2/Queue/Waiters.antt =====
-- The queues of waiting processes of a mailbox as lists of slots of the shadow table.
use process_control.Base.{
  ℕ, ◌+◌, ◌%◌, ◌≤◌, ◌≡◌, ◌≢◌, false, none, some, List, [], ◌∷◌, ◌++◌, arith, length, has,
}
use process_control.Base.Chain.{
  Chain, Distinct, walk_last, last_of, walk_last-Chain, Chain-append, has-last_of,
}
use process_control.Phase2.State.{Process, State, max_proc}
use process_control.Phase2.Slots.{get_process}
use process_control.Phase2.Queue.{
  consumer_links, producer_links, add_to_consumer_queue, add_to_producer_queue, set_consumer_head,
  set_producer_head, set_next_consumer, set_next_producer,
}

-- The consumers that wait at mailbox `b`, the first in front.
pub record HasConsumers (s : State) (b : ℕ) (xs : List ℕ) : Type 0 where
  pub chain : Chain (consumer_links s) (s.mb_table b).consumer_queue_head xs
  pub distinct : Distinct xs
  pub short : length xs ≤ max_proc

pub record HasProducers (s : State) (b : ℕ) (xs : List ℕ) : Type 0 where
  pub chain : Chain (producer_links s) (s.mb_table b).producer_queue_head xs
  pub distinct : Distinct xs
  pub short : length xs ≤ max_proc

module _ (s : State) (b me : ℕ) where
  -- What the calling process finds in its slot of the shadow table.
  abbrev pub own : Process
  own = (get_process me s).1.shadow_process_table (me % max_proc)

  -- addToConsumerQueue puts the caller behind the consumers that wait, if the caller is not among
  -- them and its own link is NULL. The messages, the other mailboxes and the rest of this one stay.
  pub add_to_consumer_queue-append :
      (xs : List ℕ)
      → HasConsumers s b xs
      → has (me % max_proc) xs ≡ false
      → own.next_consumer_node ≡ none
      → (t : State) × (add_to_consumer_queue me b s ≡ some t)
        × Chain (consumer_links t) (t.mb_table b).consumer_queue_head (xs ++ (me % max_proc) ∷ [])
        × (t.message_slots ≡ s.message_slots)
        × ((a : ℕ) → a ≢ b → t.mb_table a ≡ s.mb_table a)
        × (t.mb_table b
            ≡ record (s.mb_table b) { consumer_queue_head = (t.mb_table b).consumer_queue_head })
  unfolding add_to_consumer_queue get_process
  add_to_consumer_queue-append [] q new end =
      let u = (get_process me s).1 in
      (
        set_consumer_head b (me % max_proc) u,
        simp (q.chain, add_to_consumer_queue),
        (ground arith, ground arith),
        ground arith,
        λ a ne. ground arith,
        ground arith,
      )
  add_to_consumer_queue-append (p ∷ xs) q new end =
      let u = (get_process me s).1 in
      let l = last_of p xs in
      let walk : walk_last (max_proc + 1) (consumer_links s) p ≡ some l =
        walk_last-Chain (max_proc + 1) (consumer_links s) p xs q.chain.1 (omega (arith, q.short)) in
      let apart : l ≢ me % max_proc = λ e. absurd (ground (arith, has-last_of p xs)) in
      (
        set_next_consumer l (me % max_proc) u,
        simp (q.chain.0, walk, add_to_consumer_queue),
        (
          ground arith,
          (Chain-append (consumer_links s) (consumer_links (set_next_consumer l (me % max_proc) u))
              p (me % max_proc) xs q.chain.1 q.distinct new (ground arith) (ground arith)
              (λ i h k. ground arith)).1,
        ),
        ground arith,
        λ a ne. ground arith,
        ground arith,
      )

  -- addToProducerQueue puts the caller behind the producers that wait, if the caller is not among
  -- them and its own link is NULL. The messages, the other mailboxes and the rest of this one stay.
  pub add_to_producer_queue-append :
      (xs : List ℕ)
      → HasProducers s b xs
      → has (me % max_proc) xs ≡ false
      → own.next_producer_node ≡ none
      → (t : State) × (add_to_producer_queue me b s ≡ some t)
        × Chain (producer_links t) (t.mb_table b).producer_queue_head (xs ++ (me % max_proc) ∷ [])
        × (t.message_slots ≡ s.message_slots)
        × ((a : ℕ) → a ≢ b → t.mb_table a ≡ s.mb_table a)
        × (t.mb_table b
            ≡ record (s.mb_table b) { producer_queue_head = (t.mb_table b).producer_queue_head })
  unfolding add_to_producer_queue get_process
  add_to_producer_queue-append [] q new end =
      let u = (get_process me s).1 in
      (
        set_producer_head b (me % max_proc) u,
        simp (q.chain, add_to_producer_queue),
        (ground arith, ground arith),
        ground arith,
        λ a ne. ground arith,
        ground arith,
      )
  add_to_producer_queue-append (p ∷ xs) q new end =
      let u = (get_process me s).1 in
      let l = last_of p xs in
      let walk : walk_last (max_proc + 1) (producer_links s) p ≡ some l =
        walk_last-Chain (max_proc + 1) (producer_links s) p xs q.chain.1 (omega (arith, q.short)) in
      let apart : l ≢ me % max_proc = λ e. absurd (ground (arith, has-last_of p xs)) in
      (
        set_next_producer l (me % max_proc) u,
        simp (q.chain.0, walk, add_to_producer_queue),
        (
          ground arith,
          (Chain-append (producer_links s) (producer_links (set_next_producer l (me % max_proc) u))
              p (me % max_proc) xs q.chain.1 q.distinct new (ground arith) (ground arith)
              (λ i h k. ground arith)).1,
        ),
        ground arith,
        λ a ne. ground arith,
        ground arith,
      )
