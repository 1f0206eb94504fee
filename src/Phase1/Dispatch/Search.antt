-- ===== src/Phase1/Dispatch/Search.antt =====
-- The search of dispatcher of phase1b/phase1.c on queues that are chains.
use process_control.Base.{
  ℕ, zero, suc, ◌+◌, ◌<◌, ◌≤◌, if◌then◌else◌, ◌≡◌, refl, ap, ◌∙◌, false, Option, none, some, List,
  [], ◌∷◌, ◌++◌, length, All, arith, inl, inr, Bool-cases, Option-cases,
}
use process_control.Base.Chain.{Chain, Chain-frame}
use process_control.Phase1.State.{Process, State, max_proc}
use process_control.Phase1.Dispatch.{
  Scan, hit, miss, is_runnable, is_unset, scan_queue, scan_queues,
}

-- The first process of a list that is runnable.
abbrev pub first_runnable : (ℕ → Process) → List ℕ → Option ℕ
first_runnable table [] = none
first_runnable table (p ∷ xs) =
    let rest = first_runnable table xs in if is_runnable (table p).state then some p else rest

-- The queues `i`, `i + 1`, … one behind the other.
abbrev pub joined : ℕ → (ℕ → List ℕ) → ℕ → List ℕ
joined zero contents i = []
joined (suc rounds) contents i = contents i ++ joined rounds contents (i + 1)

abbrev pub to_scan : Option ℕ → Scan
to_scan none = miss
to_scan (some p) = hit p

-- A queue that the scan comes through: a chain of at most MAXPROC processes with a state.
pub record Queued (table : ℕ → Process) (head : Option ℕ) (xs : List ℕ) : Type 0 where
  pub chain : Chain (λ i. (table i).next_queue_node) head xs
  pub bounded : length xs < max_proc + 1
  pub has_state : All (λ p. is_unset (table p).state ≡ false) xs

scan_queue-Chain :
    (fuel : ℕ) (table : ℕ → Process) (head : Option ℕ) (xs : List ℕ)
    → Chain (λ i. (table i).next_queue_node) head xs
    → length xs < fuel
    → All (λ p. is_unset (table p).state ≡ false) xs
    → scan_queue fuel table head ≡ to_scan (first_runnable table xs)
unfolding scan_queue
scan_queue-Chain zero table head xs c h a = absurd (omega arith)
scan_queue-Chain (suc fuel) table head [] c h a = rw (c, scan_queue)
scan_queue-Chain (suc fuel) table head (p ∷ xs) c h a =
    let rest = scan_queue-Chain fuel table (table p).next_queue_node xs c.1 (omega arith) a.1 in
    elim (Bool-cases (is_runnable (table p).state)) [
      | inl r ↦ simp (c.0, a.0, r, scan_queue)
      | inr r ↦ simp (c.0, a.0, r, rest, scan_queue)
    ]

first_runnable-append-hit :
    (table : ℕ → Process) (xs ys : List ℕ) (p : ℕ)
    → first_runnable table xs ≡ some p
    → first_runnable table (xs ++ ys) ≡ some p
first_runnable-append-hit table [] ys p e = cc
first_runnable-append-hit table (x ∷ xs) ys p e = elim (Bool-cases (is_runnable (table x).state)) [
  | inl r ↦ rw r (rw r at e)
  | inr r ↦ rw r (first_runnable-append-hit table xs ys p (rw r at e))
]

first_runnable-append-miss :
    (table : ℕ → Process) (xs ys : List ℕ)
    → first_runnable table xs ≡ none
    → first_runnable table (xs ++ ys) ≡ first_runnable table ys
first_runnable-append-miss table [] ys e = refl
first_runnable-append-miss table (x ∷ xs) ys e = elim (Bool-cases (is_runnable (table x).state)) [
  | inl r ↦ cc (rw r at e)
  | inr r ↦ rw r (first_runnable-append-miss table xs ys (rw r at e))
]

pub scan_queues-joined :
    (rounds : ℕ) (table : ℕ → Process) (queues : ℕ → Option ℕ) (contents : ℕ → List ℕ) (i : ℕ)
    → ((j : ℕ) → i ≤ j → j < i + rounds → Queued table (queues j) (contents j))
    → scan_queues rounds table queues i ≡ to_scan (first_runnable table (joined rounds contents i))
unfolding scan_queues
scan_queues-joined zero table queues contents i q = refl
scan_queues-joined (suc rounds) table queues contents i q =
    let here = q i (omega arith) (omega arith) in
    let first =
      scan_queue-Chain (max_proc + 1) table (queues i) (contents i) here.chain here.bounded
        here.has_state in
    let rest =
      scan_queues-joined rounds table queues contents (i + 1)
        (λ j l h. q j (omega arith) (omega arith)) in
    elim (Option-cases (first_runnable table (contents i))) [
      | inl e ↦
          rw (scan_queues, first)
            (simp (
              e,
              first_runnable-append-miss table (contents i) (joined rounds contents (i + 1)) e,
              rest,
            ))
      | inr (p, e) ↦
          rw (scan_queues, first)
            (simp (
              e,
              first_runnable-append-hit table (contents i) (joined rounds contents (i + 1)) p e,
            ))
    ]

-- The scan reads the state and the link of a process only.
pub Queued-same :
    (t t' : ℕ → Process) (head : Option ℕ) (xs : List ℕ)
    → ((i : ℕ) → (t' i).next_queue_node ≡ (t i).next_queue_node)
    → ((i : ℕ) → (t' i).state ≡ (t i).state)
    → Queued t head xs
    → Queued t' head xs
Queued-same t t' head xs link state q = record {
  chain =
      Chain-frame (λ i. (t i).next_queue_node) (λ i. (t' i).next_queue_node) head xs (λ i h. link i)
        q.chain;
  bounded = q.bounded;
  has_state = keep xs q.has_state;
}
  where
    keep :
        (ys : List ℕ)
        → All (λ p. is_unset (t p).state ≡ false) ys
        → All (λ p. is_unset (t' p).state ≡ false) ys
    keep [] a = tt
    keep (y ∷ ys) a = (ap is_unset (state y) ∙ a.0, keep ys a.1)

pub first_runnable-same :
    (t t' : ℕ → Process) (xs : List ℕ)
    → ((i : ℕ) → (t' i).state ≡ (t i).state)
    → first_runnable t' xs ≡ first_runnable t xs
first_runnable-same t t' [] state = refl
first_runnable-same t t' (x ∷ xs) state = rw (state x, first_runnable-same t t' xs state) refl

-- The run queues of a state hold the given lists.
abbrev pub AllQueued : State → (ℕ → List ℕ) → Type 0
AllQueued s contents =
    (i : ℕ) → 1 ≤ i → i < 8 → Queued s.process_table (s.run_queues i) (contents i)
