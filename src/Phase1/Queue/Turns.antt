-- ===== src/Phase1/Queue/Turns.antt =====
-- The rotation of timeSlice of phase1b/phase1.c, alone and followed by removeNode.
use process_control.Base.{
  ℕ, ◌+◌, ◌==◌, ◌<◌, if◌then◌else◌, ◌≡◌, ◌≢◌, refl, ap, sym, ◌∙◌, true, false, Option, none, some,
  List, [], ◌∷◌, ◌++◌, length, has, arith, lt→ltb, update_self, update_field, subst, inl, inr,
  Bool-cases, ==→eq, ==→ne, eq→==,
}
use process_control.Base.Int.{pos}
use process_control.Base.Chain.{
  Chain, Distinct, last_of, walk_last, walk_last-Chain, has-last_of, Chain-append, Chain-successor,
  walk_last-closed,
}
use process_control.Phase1.State.{Process, State, max_proc, put_queue}
use process_control.Phase1.Queue.{
  ok, bad_index, queue_links, queue_index, remove_at, remove_node, set_next, set_prev, unlink_prev,
  unlink_next, unlink_head, is_head, rotate, rotated,
}
use process_control.Phase1.Queue.Order.{set_next_self, set_next_ne, set_prev-links}

rotate-rotated :
    (i p : ℕ) (xs : List ℕ) (s : State)
    → s.run_queues i ≡ some p
    → Chain (queue_links s) (queue_links s p) xs
    → length xs < max_proc + 1
    → rotate i s ≡ ok (rotated i p (last_of p xs) s)
unfolding rotate
rotate-rotated i p xs s e c h =
    rw (e, rotate) (rw (walk_last-Chain (max_proc + 1) (queue_links s) p xs c h) refl)

module _ (i p last : ℕ) (s : State) where
  rotated-end : queue_links (rotated i p last s) p ≡ none
  rotated-end =
      set_next_self p none
        (put_queue i (queue_links (set_next last (some p) s) p) (set_next last (some p) s))

  rotated-other :
      (k : ℕ)
      → p ≢ k
      → queue_links (rotated i p last s) k ≡ queue_links (set_next last (some p) s) k
  rotated-other k ne =
      set_next_ne p none
        (put_queue i (queue_links (set_next last (some p) s) p) (set_next last (some p) s)) k ne

  rotated-head : (rotated i p last s).run_queues i ≡ queue_links (set_next last (some p) s) p
  rotated-head = update_self s.run_queues i _

-- The rotation of a time slice makes the first process of a queue the last one, and keeps the
-- order of the others, in a queue of distinct processes that is no longer than the table.
pub rotate-Chain :
    (i p : ℕ) (xs : List ℕ) (s : State)
    → s.run_queues i ≡ some p
    → Chain (queue_links s) (queue_links s p) xs
    → Distinct (p ∷ xs)
    → length xs < max_proc + 1
    → (t : State) × (rotate i s ≡ ok t) × Chain (queue_links t) (t.run_queues i) (xs ++ p ∷ [])
unfolding last_of
rotate-Chain i p [] s e c d h =
    let t = rotated i p p s in
    (
      t,
      rotate-rotated i p [] s e c h,
      (rotated-head i p p s ∙ set_next_self p (some p) s, rotated-end i p p s),
    )
rotate-Chain i p (q ∷ ys) s e c d h =
    let last = last_of q ys in
    let ne : p ≢ last = λ eq. absurd (ground (arith, d.0, has-last_of q ys)) in
    let t = rotated i p last s in
    let head : t.run_queues i ≡ some q =
      rotated-head i p last s ∙ set_next_ne last (some p) s p (λ eq. ne (sym eq)) ∙ c.0 in
    (
      t,
      rotate-rotated i p (q ∷ ys) s e c h,
      subst (λ k. Chain (queue_links t) k (q ∷ (ys ++ p ∷ []))) (sym head)
          (Chain-append (queue_links s) (queue_links t) q p ys c.1 d.1 d.0
            (rotated-other i p last s last ne ∙ set_next_self last (some p) s)
            (rotated-end i p last s)
            (λ k n m.
              rotated-other i p last s k (λ eq. m (sym eq))
              ∙ set_next_ne last (some p) s k (λ eq. n (sym eq)))),
    )

pub remove_node-remove_at :
    (node i : ℕ) (s : State)
    → (s.process_table node).priority ≡ pos i
    → i < 8
    → remove_node node s ≡ ok (remove_at i node s)
unfolding remove_node
remove_node-remove_at node i s e h =
    ap (λ k. elim k [ none ↦ bad_index | some j ↦ ok (remove_at j node s) ])
      (ap queue_index e ∙ ap (λ b. if b then some i else none) (lt→ltb i 8 h))

-- removeNode on the head of a queue, whose pointer back and whose link are not NULL.
remove_at-head :
    (i q p r : ℕ) (t : State)
    → t.run_queues i ≡ some q
    → (t.process_table q).prev_queue_node ≡ some p
    → queue_links t q ≡ some r
    → p ≢ q
    → (back : Option ℕ) × (remove_at i q t
        ≡ put_queue i (some r) (set_prev r back (set_next p (some r) t)))
unfolding remove_at
remove_at-head i q p r t e b l ne =
    let t1 = set_next p (some r) t in
    let back = (t1.process_table q).prev_queue_node in
    let t2 = set_prev r back t1 in
    let first : unlink_prev q t ≡ t1 =
      ap (λ o. elim o [ none ↦ t | some k ↦ set_next k (queue_links t q) t ]) b
      ∙ ap (λ k. set_next p k t) l in
    let link1 : queue_links t1 q ≡ some r = set_next_ne p (some r) t q ne ∙ l in
    let second : unlink_next q t1 ≡ t2 =
      ap (λ o. elim o [ none ↦ t1 | some k ↦ set_prev k back t1 ]) link1 in
    let link2 : queue_links t2 q ≡ some r = set_prev-links r back t1 q ∙ link1 in
    let third : unlink_head i q t2 ≡ put_queue i (some r) t2 =
      ap (λ b. if b then put_queue i (queue_links t2 q) t2 else t2)
        (ap (is_head q) e ∙ eq→== q q refl)
      ∙ ap (λ k. put_queue i k t2) link2 in
    (
      back,
      ap (λ o. elim o [ none ↦ t | some _ ↦ unlink_head i q (unlink_next q (unlink_prev q t)) ]) e
          ∙ ap (λ x. unlink_head i q (unlink_next q x)) first
          ∙ ap (unlink_head i q) second
          ∙ third,
    )

module _ {B : Type 0} (i p last q : ℕ) (s : State) (g : Process → B) where
  -- The rotation writes links only.
  rotated-field :
      ((x : Process) (n : Option ℕ) → g (record x { next_queue_node = n }) ≡ g x)
      → g ((rotated i p last s).process_table q) ≡ g (s.process_table q)
  rotated-field same =
      let t = set_next last (some p) s in
      update_field t.process_table g p _ (same (t.process_table p) none) q
      ∙ update_field s.process_table g last _ (same (s.process_table last) (some p)) q

-- The links behind the two steps, from the ones before: the last node leads to `p`, and `p` to `r`.
module _ (i p last r : ℕ) (back : Option ℕ) (s : State) (ne : p ≢ last) where
  crossed : State
  crossed = put_queue i (some r) (set_prev r back (set_next p (some r) (rotated i p last s)))

  crossed-first : queue_links crossed p ≡ some r
  unfolding crossed
  crossed-first =
      set_prev-links r back (set_next p (some r) (rotated i p last s)) p
      ∙ set_next_self p (some r) (rotated i p last s)

  crossed-behind :
      (k : ℕ) → p ≢ k → queue_links crossed k ≡ queue_links (set_next last (some p) s) k
  unfolding crossed
  crossed-behind k n =
      set_prev-links r back (set_next p (some r) (rotated i p last s)) k
      ∙ set_next_ne p (some r) (rotated i p last s) k n
      ∙ rotated-other i p last s k n

  crossed-last : queue_links crossed last ≡ some p
  crossed-last = crossed-behind last ne ∙ set_next_self last (some p) s

  crossed-other : (k : ℕ) → p ≢ k → last ≢ k → queue_links crossed k ≡ queue_links s k
  crossed-other k n m = crossed-behind k n ∙ set_next_ne last (some p) s k m

  crossed-closed :
      (zs : List ℕ)
      → last ≡ last_of r zs
      → Chain (queue_links s) (queue_links s r) zs
      → has p (r ∷ zs) ≡ false
      → (k : ℕ) → has k (p ∷ r ∷ zs) ≡ true
      → (j : ℕ) × (queue_links crossed k ≡ some j) × (has j (p ∷ r ∷ zs) ≡ true)
  crossed-closed zs end c fresh k h = elim (Bool-cases (k == p)) [
    | inl e ↦ (r, ap (queue_links crossed) (==→eq k p e) ∙ crossed-first, ground arith)
    | inr n ↦ elim (Bool-cases (k == last)) [
      | inl e ↦ (p, ap (queue_links crossed) (==→eq k last e) ∙ crossed-last, ground arith)
      | inr m ↦
          let (j, e, in_chain) =
            Chain-successor (queue_links s) r zs k c (ground arith)
              (λ eq. ==→ne k last m (eq ∙ sym end)) in
          (
            j,
            crossed-other k (λ eq. ==→ne k p n (sym eq)) (λ eq. ==→ne k last m (sym eq)) ∙ e,
            ground arith,
          )
    ]
  ]

-- The rotation of a queue of three distinct processes or more, no longer than the table, leaves all
-- pointers back as they were, and sets the link of the first process, which is the last one now, to
-- NULL. If the second process, which has the priority of the queue and points back to the first, is
-- removed after that, the link of the old first one is set to the third, which is the head then, and
-- no walk along the queue comes to an end.
pub rotate-remove_node-cycle :
    (i p q r : ℕ) (zs : List ℕ) (s : State)
    → s.run_queues i ≡ some p
    → Chain (queue_links s) (queue_links s p) (q ∷ r ∷ zs)
    → Distinct (p ∷ q ∷ r ∷ zs)
    → length zs < 49
    → (s.process_table q).prev_queue_node ≡ some p
    → (s.process_table q).priority ≡ pos i
    → i < 8
    → (t u : State) × (rotate i s ≡ ok t)
      × ((k : ℕ) → (t.process_table k).prev_queue_node ≡ (s.process_table k).prev_queue_node)
      × (queue_links t p ≡ none)
      × (remove_node q t ≡ ok u)
      × (queue_links u p ≡ some r)
      × (u.run_queues i ≡ some r)
      × ((fuel : ℕ) → walk_last fuel (queue_links u) r ≡ none)
unfolding last_of crossed
rotate-remove_node-cycle i p q r zs s e c d small back prio h =
    let last = last_of r zs in
    let ne : p ≢ last = λ eq. absurd (ground (arith, d.0, has-last_of r zs)) in
    let nq : last ≢ q = λ eq. absurd (ground (arith, d.1.0, has-last_of r zs)) in
    let pq : p ≢ q = ground (arith, d.0) in
    let t = rotated i p last s in
    let head : t.run_queues i ≡ some q =
      rotated-head i p last s ∙ set_next_ne last (some p) s p (λ eq. ne (sym eq)) ∙ c.0 in
    let link : queue_links t q ≡ some r =
      rotated-other i p last s q pq ∙ set_next_ne last (some p) s q nq ∙ c.1.0 in
    let kept = rotated-field i p last q s (λ x. x.prev_queue_node) (λ x n. refl) ∙ back in
    let same = rotated-field i p last q s (λ x. x.priority) (λ x n. refl) ∙ prio in
    let (b, gone) = remove_at-head i q p r t head kept link pq in
    (
      t,
      crossed i p last r b s ne,
      rotate-rotated i p (q ∷ r ∷ zs) s e c (omega arith),
      λ k. rotated-field i p last k s (λ x. x.prev_queue_node) (λ x n. refl),
      rotated-end i p last s,
      remove_node-remove_at q i t same h ∙ ap ok gone,
      crossed-first i p last r b s ne,
      update_self t.run_queues i (some r),
      λ fuel.
          walk_last-closed (queue_links (crossed i p last r b s ne)) (p ∷ r ∷ zs)
            (crossed-closed i p last r b s ne zs refl c.1.1 (ground (arith, d.0))) fuel r
            (ground arith),
    )
