-- ===== src/Phase1/Queue/Invariant.antt =====
-- The run queues of phase1b/phase1.c all at once: addToQueue and removeNode keep them well formed.
use process_control.Base.{
  ℕ, ◌<◌, ◌==◌, ◌≡◌, ◌≢◌, refl, ap, sym, ◌∙◌, subst, true, false, none, some, List, [], ◌∷◌, ◌++◌,
  has, arith, inl, inr, Bool-cases, update, update_self, update_ne, ==→eq, ==→ne,
}
use process_control.Base.Int.{pos}
use process_control.Base.Chain.{Chain, Distinct, Back, Chain-frame}
use process_control.Base.Chain.Doubly.{
  first_of, has-middle, Distinct-remove, Back-frame, Back-remove, Chain-first, Chain-first-has,
  Back-has, Back-apart,
}
use process_control.Phase1.State.{State}
use process_control.Phase1.Queue.{Step, ok, queue_links, remove_node}
use process_control.Phase1.Queue.Removal.{back_links, remove_node-Chain}
use process_control.Phase1.Queue.Removed.{
  removed, remove_node-removed, removed-field, removed-queues, removed-links, removed-back,
  removed-behind,
}

-- One queue: linked both ways through distinct processes of its priority.
pub record IsQueue (s : State) (i : ℕ) (xs : List ℕ) : Type 0 where
  pub chain : Chain (queue_links s) (s.run_queues i) xs
  pub back : Back (back_links s) none xs
  pub distinct : Distinct xs
  pub own : (p : ℕ) → has p xs ≡ true → (s.process_table p).priority ≡ pos i

-- The eight queues.
abbrev pub WellQueued : State → (ℕ → List ℕ) → Type 0
WellQueued s queues = (i : ℕ) → i < 8 → IsQueue s i (queues i)

-- No process of another queue is on a queue.
pub elsewhere :
    (s : State) (i j : ℕ) (xs ys : List ℕ) (k : ℕ)
    → IsQueue s i xs
    → IsQueue s j ys
    → i ≢ j
    → has k xs ≡ true
    → has k ys ≡ false
elsewhere s i j xs ys k x y ne h = elim (Bool-cases (has k ys)) [
  | inl e ↦ absurd (ne (pos_inj (sym (x.own k h) ∙ y.own k e)))
  | inr e ↦ e
]
  where
    pos_inj : pos i ≡ pos j → i ≡ j
    pos_inj e = cc

-- A queue stays one where nothing of it is written.
pub IsQueue-frame :
    (s t : State) (i : ℕ) (xs : List ℕ)
    → t.run_queues i ≡ s.run_queues i
    → ((k : ℕ) → has k xs ≡ true → queue_links t k ≡ queue_links s k)
    → ((k : ℕ) → has k xs ≡ true → back_links t k ≡ back_links s k)
    → ((k : ℕ) → (t.process_table k).priority ≡ (s.process_table k).priority)
    → IsQueue s i xs
    → IsQueue t i xs
IsQueue-frame s t i xs head links backs prio q = record {
  chain =
      subst (λ h. Chain (queue_links t) h xs) (sym head)
        (Chain-frame (queue_links s) (queue_links t) (s.run_queues i) xs links q.chain);
  back = Back-frame (back_links s) (back_links t) none xs backs q.back;
  distinct = q.distinct;
  own = λ p h. prio p ∙ q.own p h;
}

abbrev state_of : State → Step → State
state_of s (ok t) = t
state_of s _ = s

ok_inj : {s t : State} → ok s ≡ ok t → s ≡ t
ok_inj {s = s} e = ap (state_of s) e

module _ (i c : ℕ) (pre post : List ℕ) (s : State) (queues : ℕ → List ℕ) (within : i < 8)
    (well : WellQueued s queues) (here : queues i ≡ pre ++ c ∷ post) where
  whole-IsQueue : IsQueue s i (pre ++ c ∷ post)
  whole-IsQueue = subst (IsQueue s i) here (well i within)

  c_in : has c (pre ++ c ∷ post) ≡ true
  c_in = go pre
    where
      go : (xs : List ℕ) → has c (xs ++ c ∷ post) ≡ true
      go [] = ground arith
      go (x ∷ xs) = ground (arith, go xs)

  apart : back_links s c ≢ some c
  apart =
      Back-apart (back_links s) none pre c post whole-IsQueue.back whole-IsQueue.distinct (λ e. cc)

  no_before : (k : ℕ) → none ≢ some k
  no_before k e = cc

  leads : queue_links s c ≡ first_of post
  leads = Chain-first (queue_links s) (s.run_queues i) pre c post whole-IsQueue.chain

  pub remove_node-ok : remove_node c s ≡ ok (removed i c s)
  remove_node-ok = go pre whole-IsQueue.chain
    where
      go :
          (xs : List ℕ)
          → Chain (queue_links s) (s.run_queues i) (xs ++ c ∷ post)
          → remove_node c s ≡ ok (removed i c s)
      go [] k = remove_node-removed i c c s (whole-IsQueue.own c c_in) within k.0
      go (x ∷ xs) k = remove_node-removed i c x s (whole-IsQueue.own c c_in) within k.0

  own-IsQueue : IsQueue (removed i c s) i (pre ++ post)
  own-IsQueue =
      let (t, taken, behind) =
        remove_node-Chain i c pre post s (whole-IsQueue.own c c_in) within whole-IsQueue.chain
          whole-IsQueue.back whole-IsQueue.distinct in
      record {
        chain =
            subst (λ x. Chain (queue_links x) (x.run_queues i) (pre ++ post))
              (ok_inj (sym taken ∙ remove_node-ok)) behind;
        back =
            Back-remove (back_links s) (back_links (removed i c s)) none pre c post
              whole-IsQueue.back whole-IsQueue.distinct
              (λ q e. removed-behind i c s apart q (leads ∙ e))
              (λ k ne. removed-back i c s apart k (λ e. ne (sym leads ∙ e)));
        distinct = Distinct-remove pre c post whole-IsQueue.distinct;
        own = λ p h.
            removed-field i c s (λ x. x.priority) p (λ x o. refl) (λ x o. refl)
            ∙ whole-IsQueue.own p (has-middle p pre c post h);
      }

  other-IsQueue : (j : ℕ) → j < 8 → i ≢ j → IsQueue (removed i c s) j (queues j)
  other-IsQueue j h ne =
      IsQueue-frame s (removed i c s) j (queues j) (removed-queues i c s j ne)
        (λ k inside. removed-links i c s k (λ e. absurd (
          no k inside
            (Back-has (back_links s) none pre c post k whole-IsQueue.back e (no_before k)))))
        (λ k inside. removed-back i c s apart k (λ e. absurd (
          no k inside
            (Chain-first-has (queue_links s) (s.run_queues i) pre c post k whole-IsQueue.chain e))))
        (λ k. removed-field i c s (λ x. x.priority) k (λ x o. refl) (λ x o. refl)) (well j h)
    where
      no : (k : ℕ) → has k (queues j) ≡ true → has k (pre ++ c ∷ post) ≡ true → ⊥
      no k x y =
          ground
            (arith, x, elsewhere s i j (pre ++ c ∷ post) (queues j) k whole-IsQueue (well j h) ne y)

  pub removed-WellQueued : WellQueued (removed i c s) (update queues i (pre ++ post))
  removed-WellQueued j h = at j h
    where
      at : (j : ℕ) → j < 8 → IsQueue (removed i c s) j (update queues i (pre ++ post) j)
      at j h = elim (Bool-cases (i == j)) [
        | inl e ↦
            subst (λ k. IsQueue (removed i c s) k (update queues i (pre ++ post) k)) (==→eq i j e)
              (subst (IsQueue (removed i c s) i) (sym (update_self queues i (pre ++ post)))
                own-IsQueue)
        | inr e ↦
            subst (IsQueue (removed i c s) j) (sym (update_ne queues (pre ++ post) (==→ne i j e)))
              (other-IsQueue j h (==→ne i j e))
      ]

  -- A process of one of the queues is taken out of it by removeNode, wherever it stands. When the
  -- eight queues are linked both ways, each through distinct processes of its priority, they are so
  -- behind it, with the process gone from its queue and the others as they were.
  pub remove_node-WellQueued :
      (t : State) × (remove_node c s ≡ ok t) × WellQueued t (update queues i (pre ++ post))
  remove_node-WellQueued = (removed i c s, remove_node-ok, removed-WellQueued)
