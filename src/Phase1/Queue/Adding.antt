-- ===== src/Phase1/Queue/Adding.antt =====
-- addToQueue of phase1b/phase1.c keeps the run queues well formed.
use process_control.Base.{
  ℕ, suc, ◌+◌, ◌<◌, ◌==◌, ◌≡◌, ◌≢◌, refl, ap, sym, ◌∙◌, subst, true, false, none, some, List, [],
  ◌∷◌, ◌++◌, length, has, arith, inl, inr, Bool-cases, update, update_self, update_ne, update_field,
  field_update, ==→eq, ==→ne,
}
use process_control.Base.Int.{pos}
use process_control.Base.Chain.{last_of, has-last_of, Distinct-append}
use process_control.Base.Chain.Doubly.{Back-append}
use process_control.Phase1.State.{State, max_proc, put_queue}
use process_control.Phase1.Queue.{
  ok, no_end, queue_links, add_at, add_to_queue, walk_to, at_end, already, endless, link_behind,
  set_next, set_prev,
}
use process_control.Phase1.Queue.Order.{
  add_to_queue-add_at, add_to_queue-link_behind, link_behind-Chain, link_behind-other,
}
use process_control.Phase1.Queue.Removal.{back_links}
use process_control.Phase1.Queue.Invariant.{IsQueue, WellQueued, elsewhere, IsQueue-frame}

link_behind-back :
    (c node : ℕ) (s : State) (k : ℕ)
    → back_links (link_behind c node s) k ≡ update (back_links s) node (some c) k
link_behind-back c node s k =
    let t1 = set_next c (some node) s in
    let t2 = set_prev node (some c) t1 in
    update_field t2.process_table (λ x. x.prev_queue_node) node
      (record (t2.process_table node) { next_queue_node = none }) refl k
    ∙ field_update t1.process_table (λ x. x.prev_queue_node) node
        (record (t1.process_table node) { prev_queue_node = some c }) k
    ∙ (λ j.
        update
          (λ m.
            update_field s.process_table (λ x. x.prev_queue_node) c
              (record (s.process_table c) { next_queue_node = some node }) refl m j)
          node (some c) k)

link_behind-priority :
    (c node : ℕ) (s : State) (k : ℕ)
    → ((link_behind c node s).process_table k).priority ≡ (s.process_table k).priority
link_behind-priority c node s k =
    let t1 = set_next c (some node) s in
    let t2 = set_prev node (some c) t1 in
    update_field t2.process_table (λ x. x.priority) node
      (record (t2.process_table node) { next_queue_node = none }) refl k
    ∙ update_field t1.process_table (λ x. x.priority) node
        (record (t1.process_table node) { prev_queue_node = some c }) refl k
    ∙ update_field s.process_table (λ x. x.priority) c
        (record (s.process_table c) { next_queue_node = some node }) refl k

-- Who is on a list with one more behind it is that one or on the list.
has-append-new :
    (k node : ℕ) (ys : List ℕ)
    → (k == node) ≡ false
    → has k (ys ++ node ∷ []) ≡ true
    → has k ys ≡ true
has-append-new k node [] f g = absurd (ground (arith, f))
has-append-new k node (y ∷ ys) f g = elim (Bool-cases (k == y)) [
  | inl h ↦ ground arith
  | inr h ↦ ground (arith, has-append-new k node ys f (ground arith))
]

module _ (node i : ℕ) (s : State) (queues : ℕ → List ℕ)
    (prio : (s.process_table node).priority ≡ pos i) (within : i < 8) (well : WellQueued s queues)
    (fresh : has node (queues i) ≡ false) where
  -- Behind the writes to the queue i and to the process itself the other queues are what they were.
  spread :
      (t : State) (ys : List ℕ)
      → ((j : ℕ) → i ≢ j → t.run_queues j ≡ s.run_queues j)
      → ((k : ℕ) → has k (queues i) ≡ false → node ≢ k → queue_links t k ≡ queue_links s k)
      → ((k : ℕ) → node ≢ k → back_links t k ≡ back_links s k)
      → ((k : ℕ) → (t.process_table k).priority ≡ (s.process_table k).priority)
      → IsQueue t i ys
      → WellQueued t (update queues i ys)
  spread t ys heads links backs kept own j h = elim (Bool-cases (i == j)) [
    | inl e ↦
        subst (λ k. IsQueue t k (update queues i ys k)) (==→eq i j e)
          (subst (IsQueue t i) (sym (update_self queues i ys)) own)
    | inr e ↦
        let ne = ==→ne i j e in
        subst (IsQueue t j) (sym (update_ne queues ys ne)) (
          IsQueue-frame s t j (queues j) (heads j ne)
            (λ k inside.
              links k
                (elsewhere s j i (queues j) (queues i) k (well j h) (well i within)
                  (λ f. ne (sym f)) inside)
                (other j h ne k inside))
            (λ k inside. backs k (other j h ne k inside)) kept (well j h))
  ]
    where
      other : (j : ℕ) → j < 8 → i ≢ j → (k : ℕ) → has k (queues j) ≡ true → node ≢ k
      other j h ne k inside e =
          ne (
            pos_inj (sym prio ∙ ap (λ x. (s.process_table x).priority) e ∙ (well j h).own k inside))
        where
          pos_inj : pos i ≡ pos j → i ≡ j
          pos_inj f = cc

  abbrev Added : List ℕ → Type 0
  Added xs =
      (t : State) × (add_to_queue node s ≡ ok t) × WellQueued t (update queues i (xs ++ node ∷ []))

  into_empty : IsQueue s i [] → queue_links s node ≡ none → back_links s node ≡ none → Added []
  unfolding add_at
  into_empty q no_next no_prev = (
    put_queue i (some node) s,
    add_to_queue-add_at node i s prio within
        ∙ ap
            (λ o. elim o [
              | none ↦ ok (put_queue i (some node) s)
              | some head ↦ elim (walk_to (max_proc + 1) (queue_links s) node head) [
                | at_end current ↦ ok (link_behind current node s)
                | already ↦ ok s
                | endless ↦ no_end
              ]
            ])
            q.chain,
    spread (put_queue i (some node) s) (node ∷ []) (λ j ne. update_ne s.run_queues (some node) ne)
        (λ k a b. refl) (λ k a. refl) (λ k. refl)
        (record {
          chain = (update_self s.run_queues i (some node), no_next);
          back = (no_prev, tt);
          distinct = (refl, tt);
          own = λ k h. ap (λ x. (s.process_table x).priority) (is_node k h) ∙ prio;
        }),
  )
    where
      is_node : (k : ℕ) → has k (node ∷ []) ≡ true → k ≡ node
      is_node k h = ground arith

  behind_others :
      (p : ℕ) (xs : List ℕ)
      → queues i ≡ p ∷ xs
      → length xs < max_proc + 1
      → IsQueue s i (p ∷ xs)
      → Added (p ∷ xs)
  behind_others p xs e small q =
      let last = last_of p xs in
      let t = link_behind last node s in
      let new : has node (p ∷ xs) ≡ false = subst (λ ys. has node ys ≡ false) e fresh in
      let ne : last ≢ node = λ eq. absurd (ground (arith, has-last_of p xs)) in
      let backs = link_behind-back last node s in
      let others = λ (k : ℕ) (f : node ≢ k). backs k ∙ update_ne (back_links s) (some last) f in
      (
        t,
        add_to_queue-link_behind node i p xs s prio within q.chain.0 q.chain.1 q.distinct new small,
        spread t (p ∷ (xs ++ node ∷ [])) (λ j f. refl)
            (λ k outside f.
              link_behind-other last node s ne k (not_last k outside) (λ g. f (sym g)))
            others (link_behind-priority last node s)
            (record {
              chain =
                  link_behind-Chain node i p xs s prio within q.chain.0 q.chain.1 q.distinct new
                    small;
              back =
                  Back-append (back_links s) (back_links t) none p xs node q.back new
                    (backs node ∙ update_self (back_links s) node (some last)) others;
              distinct = Distinct-append (p ∷ xs) node q.distinct new;
              own = λ k h. link_behind-priority last node s k ∙ member k h;
            }),
      )
    where
      not_last : (k : ℕ) → has k (queues i) ≡ false → k ≢ last_of p xs
      not_last k outside g =
          absurd (ground (arith, has-last_of p xs, g, subst (λ ys. has k ys ≡ false) e outside))

      member : (k : ℕ) → has k (p ∷ (xs ++ node ∷ [])) ≡ true → (s.process_table k).priority ≡ pos i
      member k h = elim (Bool-cases (k == node)) [
        | inl f ↦ ap (λ x. (s.process_table x).priority) (==→eq k node f) ∙ prio
        | inr f ↦ q.own k (has-append-new k node (p ∷ xs) f h)
      ]

  -- A process that is not on the queue of its priority becomes the last of it by addToQueue. When
  -- the eight queues are linked both ways, each through distinct processes of its priority, and this
  -- one is no longer than the table, they are so behind it, and the others are what they were. A
  -- process that is put into an empty queue has to have no links of its own.
  pub add_to_queue-WellQueued :
      length (queues i) < max_proc + 1
      → (queues i ≡ [] → (queue_links s node ≡ none) × (back_links s node ≡ none))
      → (t : State) × (add_to_queue node s ≡ ok t)
        × WellQueued t (update queues i (queues i ++ node ∷ []))
  add_to_queue-WellQueued short clear = go (queues i) refl (well i within)
    where
      go : (xs : List ℕ) → queues i ≡ xs → IsQueue s i xs → Added xs
      go [] e q = into_empty q (clear e).0 (clear e).1
      go (p ∷ xs) e q =
          behind_others p xs e
            (shorter (length xs) (subst (λ ys. length ys < max_proc + 1) e short)) q
        where
          shorter : (n : ℕ) → suc n < max_proc + 1 → n < max_proc + 1
          shorter n h = omega arith
