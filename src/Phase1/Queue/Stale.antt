-- ===== src/Phase1/Queue/Stale.antt =====
-- addToQueue of phase1b/phase1.c on an empty queue keeps the links that removeNode left.
use process_control.Base.{
  ℕ, ◌+◌, ◌<◌, ◌≡◌, refl, ap, ◌∙◌, subst, none, some, List, [], ◌∷◌, arith, update, update_self,
}
use process_control.Base.Int.{pos}
use process_control.Base.Chain.{Chain}
use process_control.Phase1.State.{State, max_proc, put_queue}
use process_control.Phase1.Queue.{
  ok, no_end, at_end, already, endless, queue_links, remove_node, add_to_queue, add_at, walk_to,
  link_behind,
}
use process_control.Phase1.Queue.Order.{add_to_queue-add_at}
use process_control.Phase1.Queue.Removed.{removed, removed-field, removed-links}
use process_control.Phase1.Queue.Invariant.{IsQueue, WellQueued, remove_node-ok, removed-WellQueued}

-- A queue of two processes a and b, in well-formed queues: once both are taken out the queue is
-- empty, and when a alone is put back, b is in it again, behind a.
pub add_to_queue-remove_node-stale :
    (i a b : ℕ) (s : State) (queues : ℕ → List ℕ)
    → i < 8
    → WellQueued s queues
    → queues i ≡ a ∷ b ∷ []
    → (t u v : State) × (remove_node a s ≡ ok t)
      × (remove_node b t ≡ ok u)
      × (u.run_queues i ≡ none)
      × (add_to_queue a u ≡ ok v)
      × Chain (queue_links v) (v.run_queues i) (a ∷ b ∷ [])
unfolding add_at
add_to_queue-remove_node-stale i a b s queues within well here =
    let t = removed i a s in
    let u = removed i b t in
    let v = put_queue i (some a) u in
    let q = subst (IsQueue s i) here (well i within) in
    let well_t = removed-WellQueued i a [] (b ∷ []) s queues within well here in
    let one = update_self queues i (b ∷ []) in
    let well_u = removed-WellQueued i b [] [] t (update queues i (b ∷ [])) within well_t one in
    let r = subst (IsQueue t i) one (well_t i within) in
    let empty =
      (subst (IsQueue u i) (update_self (update queues i (b ∷ [])) i []) (well_u i within)).chain in
    let prio : (u.process_table a).priority ≡ pos i =
      removed-field i b t (λ x. x.priority) a (λ x o. refl) (λ x o. refl)
      ∙ removed-field i a s (λ x. x.priority) a (λ x o. refl) (λ x o. refl)
      ∙ q.own a (ground arith) in
    let link_a =
      removed-links i b t a (λ e. cc (e, r.back.0))
      ∙ removed-links i a s a (λ e. cc (e, q.back.0))
      ∙ q.chain.1.0 in
    let link_b = removed-links i b t b (λ e. cc (e, r.back.0)) ∙ r.chain.1 in
    (
      t,
      u,
      v,
      remove_node-ok i a [] (b ∷ []) s queues within well here,
      remove_node-ok i b [] [] t (update queues i (b ∷ [])) within well_t one,
      empty,
      add_to_queue-add_at a i u prio within
          ∙ ap
              (λ o. elim o [
                | none ↦ ok (put_queue i (some a) u)
                | some head ↦ elim (walk_to (max_proc + 1) (queue_links u) a head) [
                  | at_end current ↦ ok (link_behind current a u)
                  | already ↦ ok u
                  | endless ↦ no_end
                ]
              ])
              empty,
      (update_self u.run_queues i (some a), (link_a, link_b)),
    )
