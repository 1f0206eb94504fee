-- ===== src/Phase1/Queue/Removal.antt =====
-- removeNode of phase1b/phase1.c on a doubly linked queue.
use process_control.Base.{
  ℕ, ◌<◌, if◌then◌else◌, ◌≡◌, ◌≢◌, refl, ap, sym, ◌∙◌, subst, true, false, Option, none, some, List,
  [], ◌∷◌, ◌++◌, has, arith, update_self, eq→==, ne→==,
}
use process_control.Base.Int.{pos}
use process_control.Base.Chain.{
  Links, Chain, Distinct, Back, Back-last, last_of, Chain-frame, Chain-remove,
}
use process_control.Phase1.State.{State, put_queue}
use process_control.Phase1.Queue.{
  ok, queue_links, remove_at, remove_node, set_next, set_prev, unlink_prev, unlink_next,
  unlink_head, is_head,
}
use process_control.Phase1.Queue.Order.{set_next_self, set_next_ne, set_prev-links}
use process_control.Phase1.Queue.Turns.{remove_node-remove_at}

-- The pointers back of the queues.
abbrev pub back_links : State → Links
back_links s = λ k. (s.process_table k).prev_queue_node

unlink_next-links : (c : ℕ) (s : State) (k : ℕ) → queue_links (unlink_next c s) k ≡ queue_links s k
unlink_next-links c s k = go (queue_links s c)
  where
    go :
        (o : Option ℕ)
        → queue_links
            (elim o [ none ↦ s | some q ↦ set_prev q (s.process_table c).prev_queue_node s ])
            k
          ≡ queue_links s k
    go none = refl
    go (some q) = set_prev-links q (s.process_table c).prev_queue_node s k

unlink_next-queues : (c : ℕ) (s : State) (k : ℕ) → (unlink_next c s).run_queues k ≡ s.run_queues k
unlink_next-queues c s k = go (queue_links s c)
  where
    run_queues_of : State → Option ℕ
    run_queues_of t = t.run_queues k

    go :
        (o : Option ℕ)
        → run_queues_of
            (elim o [ none ↦ s | some q ↦ set_prev q (s.process_table c).prev_queue_node s ])
          ≡ s.run_queues k
    go none = refl
    go (some q) = refl

remove_at-some :
    (i c h : ℕ) (s u : State)
    → s.run_queues i ≡ some h
    → unlink_prev c s ≡ u
    → remove_at i c s ≡ unlink_head i c (unlink_next c u)
unfolding remove_at
remove_at-some i c h s u e first =
    ap (λ o. elim o [ none ↦ s | some _ ↦ unlink_head i c (unlink_next c (unlink_prev c s)) ]) e
    ∙ ap (λ x. unlink_head i c (unlink_next c x)) first

unlink_prev-by :
    (c : ℕ) (s : State) (before : Option ℕ)
    → back_links s c ≡ before
    → unlink_prev c s ≡ elim before [ none ↦ s | some p ↦ set_next p (queue_links s c) s ]
unlink_prev-by c s before e =
    ap (λ o. elim o [ none ↦ s | some p ↦ set_next p (queue_links s c) s ]) e

-- A process of a doubly linked queue of distinct processes, wherever it stands, is taken out of
-- it, and the queue is the chain of the others in their order. The queue is the one of its
-- priority.
pub remove_node-Chain :
    (i c : ℕ) (pre post : List ℕ) (s : State)
    → (s.process_table c).priority ≡ pos i
    → i < 8
    → Chain (queue_links s) (s.run_queues i) (pre ++ c ∷ post)
    → Back (back_links s) none (pre ++ c ∷ post)
    → Distinct (pre ++ c ∷ post)
    → (t : State) × (remove_node c s ≡ ok t) × Chain (queue_links t) (t.run_queues i) (pre ++ post)
remove_node-Chain i c [] post s prio h chain back d =
    let t2 = unlink_next c s in
    let at_head : is_head c (t2.run_queues i) ≡ true =
      ap (is_head c) (unlink_next-queues c s i ∙ chain.0) ∙ eq→== c c refl in
    (
      put_queue i (queue_links t2 c) t2,
      remove_node-remove_at c i s prio h
          ∙ ap ok (
              remove_at-some i c c s s chain.0 (unlink_prev-by c s none back.0)
              ∙ ap (λ b. if b then put_queue i (queue_links t2 c) t2 else t2) at_head),
      subst (λ k. Chain (queue_links t2) k post)
          (sym (update_self t2.run_queues i (queue_links t2 c) ∙ unlink_next-links c s c))
          (Chain-frame (queue_links s) (queue_links t2) (queue_links s c) post
            (λ k e. unlink_next-links c s k) chain.1),
    )
remove_node-Chain i c (p ∷ ps) post s prio h chain back d =
    let last = last_of p ps in
    let t1 = set_next last (queue_links s c) s in
    let t2 = unlink_next c t1 in
    let first : unlink_prev c s ≡ t1 =
      unlink_prev-by c s (some last) (Back-last (back_links s) none p ps c post back) in
    let not_head : is_head c (t2.run_queues i) ≡ false =
      ap (is_head c) (unlink_next-queues c t1 i ∙ chain.0) ∙ ne→== p c (other ps d.0) in
    (
      t2,
      remove_node-remove_at c i s prio h
          ∙ ap ok (
              remove_at-some i c p s t1 chain.0 first
              ∙ ap (λ b. if b then put_queue i (queue_links t2 c) t2 else t2) not_head),
      subst (λ k. Chain (queue_links t2) k ((p ∷ ps) ++ post)) (sym (unlink_next-queues c t1 i))
          (Chain-remove (queue_links s) (queue_links t2) (s.run_queues i) p ps c post chain d
            (unlink_next-links c t1 last ∙ set_next_self last (queue_links s c) s)
            (λ k n.
              unlink_next-links c t1 k ∙ set_next_ne last (queue_links s c) s k (λ e. n (sym e)))),
    )
  where
    other : (qs : List ℕ) → has p (qs ++ c ∷ post) ≡ false → p ≢ c
    other [] e = ground (arith, e)
    other (q ∷ qs) e = other qs (ground arith)
