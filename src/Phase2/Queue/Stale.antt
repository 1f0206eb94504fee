-- ===== src/Phase2/Queue/Stale.antt =====
-- The link of a process that left a queue of waiting processes is not reset (MboxRecv, MboxSend and
-- MboxRelease of phase2/phase2.c move the head only). What follows when the process queues again.
use process_control.Base.{
  ℕ, ◌+◌, ◌%◌, ◌≡◌, ◌≢◌, ◌∙◌, inl, inr, true, none, some, List, [], ◌∷◌, arith, has, ◌==◌,
  Bool-cases,
}
use process_control.Base.Int.{pos}
use process_control.Base.Run.{done}
use process_control.Base.Chain.{
  walk_last, last_of, walk_last-Chain, has-last_of, Chain-successor, walk_last-closed,
}
use process_control.Phase2.State.{State, max_proc, put_mb, put_process}
use process_control.Phase2.Slots.{get_process}
use process_control.Phase2.Queue.{consumer_links, add_to_consumer_queue, set_next_consumer}
use process_control.Phase2.Queue.Waiters.{HasConsumers}
use process_control.Phase2.Mailbox.Recv.{answer, recv_meet, take_message, take_out}

module _ (s : State) (b me y : ℕ) (ys : List ℕ)
    (q : HasConsumers s b ((me % max_proc) ∷ y ∷ ys)) where
  -- The process that queues again is not the last of those that wait.
  last-ne : last_of y ys ≢ me % max_proc
  last-ne e = absurd (ground (arith, has-last_of y ys, q.distinct.0))

  -- The state behind the removal, in which the links are those of before.
  module _ (left : State) (links : (i : ℕ) → consumer_links left i ≡ consumer_links s i)
      (known : (left.shadow_process_table (me % max_proc)).pid ≡ me)
      (head : (left.mb_table b).consumer_queue_head ≡ some y) where
    abbrev again : State
    again = set_next_consumer (last_of y ys) (me % max_proc) left

    again-step :
        (i : ℕ)
        → has i ((me % max_proc) ∷ y ∷ ys) ≡ true
        → (j : ℕ) × (consumer_links again i ≡ some j) × (has j ((me % max_proc) ∷ y ∷ ys) ≡ true)
    again-step i h = elim (Bool-cases (i == last_of y ys)) [
      | inl end ↦ (me % max_proc, ground arith, ground arith)
      | inr inner ↦ elim (Bool-cases (i == me % max_proc)) [
        | inl first ↦ (y, ground (arith, q.chain.1.0, links i), ground arith)
        | inr other ↦
            let (j, e, k) =
              Chain-successor (consumer_links s) y ys i q.chain.1.1 (ground arith) (ground arith) in
            (j, ground (arith, e, links i), ground (arith, k))
      ]
    ]

    -- The walk that addToConsumerQueue makes ends, and the next one does not.
    queues_again :
        (u : State) × (add_to_consumer_queue me b left ≡ some u)
        × ((u.mb_table b).consumer_queue_head ≡ some y)
        × ((fuel : ℕ) → walk_last fuel (consumer_links u) y ≡ none)
    unfolding add_to_consumer_queue get_process
    queues_again =
        let same : consumer_links left ≡ consumer_links s = λ i k. links k i in
        let walk : walk_last (max_proc + 1) (consumer_links left) y ≡ some (last_of y ys) =
          (λ i. walk_last (max_proc + 1) (same i) y)
          ∙ walk_last-Chain (max_proc + 1) (consumer_links s) y ys q.chain.1.1
              (omega (arith, q.short)) in
        let mine : (me == (left.shadow_process_table (me % max_proc)).pid) ≡ true = ground arith in
        (
          again,
          simp (head, walk, mine, add_to_consumer_queue, get_process),
          head,
          λ fuel.
              walk_last-closed (consumer_links again) ((me % max_proc) ∷ y ∷ ys) again-step fuel y
                (ground arith),
        )

  -- A consumer at the front of the queue, with others behind it, goes on with its receive, from a
  -- mailbox without slots or from one with a message `x`, and leaves the queue. When it then queues
  -- again, the queue is a cycle: from its head no walk comes to an end, so that the next call that walks
  -- the queue runs forever. The consumer has its entry in the shadow table.
  pub add_to_consumer_queue-cycle :
      (x : ℕ)
      → (s.shadow_process_table (me % max_proc)).pid ≡ me
      → ((t u : State) × (recv_meet b (me % max_proc) s ≡ done (answer (pos 0) []) t)
          × (add_to_consumer_queue me b t ≡ some u)
          × ((u.mb_table b).consumer_queue_head ≡ some y)
          × ((fuel : ℕ) → walk_last fuel (consumer_links u) y ≡ none))
        × ((t u : State) × (take_message b x s ≡ some t)
            × (add_to_consumer_queue me b t ≡ some u)
            × ((u.mb_table b).consumer_queue_head ≡ some y)
            × ((fuel : ℕ) → walk_last fuel (consumer_links u) y ≡ none))
  unfolding recv_meet take_message
  add_to_consumer_queue-cycle x known =
      let c = me % max_proc in
      let head : (s.mb_table b).consumer_queue_head ≡ some c = q.chain.0 in
      let next : consumer_links s c ≡ some y = q.chain.1.0 in
      let moved =
        put_mb b
          (record (s.mb_table b) {
            consumer_queue_head = (s.shadow_process_table c).next_consumer_node;
          })
          s in
      let met = put_process c (record (moved.shadow_process_table c) { message = none }) moved in
      let taken = take_out b x c s in
      let (u, added, first, endless) =
        queues_again met (λ i. ground arith) (ground arith) (ground (arith, next)) in
      let (v, added', first', endless') =
        queues_again taken (λ i. ground arith) (ground arith) (ground (arith, next)) in
      (
        (met, u, simp (head, recv_meet), added, first, endless),
        (taken, v, simp (head, take_message), added', first', endless'),
      )
