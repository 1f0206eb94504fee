-- ===== src/Base/Chain.antt =====
-- Linked lists through a `next` pointer, over an array of nodes: every queue of the kernel.
pub mod Doubly
use Prim.Native.Nat.{ℕ, zero, suc, ◌<◌}
use mathlib.Core.Path.{◌≡◌, refl}
use mathlib.Core.Logic.{◌≢◌, inl, inr}
use mathlib.Core.Bool.{true, false}
use mathlib.Core.Option.{Option, none, some}
use mathlib.Core.List.{List, [], ◌∷◌, ◌++◌}
use native.Mathlib.Omega.{arith}
use process_control.Base.Tests.{◌==◌, Bool-cases}
use process_control.Base.Lists.{length, has}

abbrev pub Links : Type 0
Links = ℕ → Option ℕ

-- From `head` the pointers lead through `xs` to NULL.
abbrev pub Chain : Links → Option ℕ → List ℕ → Type 0
Chain next head [] = head ≡ none
Chain next head (p ∷ xs) = (head ≡ some p) × Chain next (next p) xs

abbrev pub Distinct : List ℕ → Type 0
Distinct [] = Unit {0}
Distinct (p ∷ xs) = (has p xs ≡ false) × Distinct xs

-- `while (p->next != NULL) p = p->next;`
pub walk_last : ℕ → Links → ℕ → Option ℕ
walk_last zero next p = none
walk_last (suc fuel) next p = elim (next p) [ none ↦ some p | some q ↦ walk_last fuel next q ]

unfoldable pub last_of : ℕ → List ℕ → ℕ
last_of p [] = p
last_of p (q ∷ xs) = last_of q xs

pub walk_last-Chain :
    (fuel : ℕ) (next : Links) (p : ℕ) (xs : List ℕ)
    → Chain next (next p) xs
    → length xs < fuel
    → walk_last fuel next p ≡ some (last_of p xs)
unfolding walk_last last_of
walk_last-Chain zero next p xs c h = absurd (omega arith)
walk_last-Chain (suc fuel) next p [] c h = rw (c, walk_last)
walk_last-Chain (suc fuel) next p (q ∷ xs) c h =
    rw (c.0, walk_last) (walk_last-Chain fuel next q xs c.1 (omega arith))

pub has-last_of : (p : ℕ) (xs : List ℕ) → has (last_of p xs) (p ∷ xs) ≡ true
unfolding last_of
has-last_of p [] = ground arith
has-last_of p (q ∷ xs) = ground (arith, has-last_of q xs)

-- A chain survives a change of the links that spares its nodes.
pub Chain-frame :
    (next next' : Links) (head : Option ℕ) (xs : List ℕ)
    → ((i : ℕ) → has i xs ≡ true → next' i ≡ next i)
    → Chain next head xs
    → Chain next' head xs
Chain-frame next next' head [] same c = c
Chain-frame next next' head (p ∷ xs) same c = (
  c.0,
  rw (same p (ground arith))
      (Chain-frame next next' (next p) xs (λ i h. same i (ground arith)) c.1),
)

-- The last node linked to a new one, whose own link is NULL, gives the chain with that node behind.
pub Chain-append :
    (next next' : Links) (p q : ℕ) (xs : List ℕ)
    → Chain next (next p) xs
    → Distinct (p ∷ xs)
    → has q (p ∷ xs) ≡ false
    → next' (last_of p xs) ≡ some q
    → next' q ≡ none
    → ((i : ℕ) → i ≢ last_of p xs → i ≢ q → next' i ≡ next i)
    → Chain next' (some p) (p ∷ (xs ++ q ∷ []))
unfolding last_of
Chain-append next next' p q [] c d new link end same = (refl, (link, end))
Chain-append next next' p q (r ∷ xs) c d new link end same =
    let away : next' p ≡ next p =
      same p (λ e. absurd (ground (arith, has-last_of r xs))) (ground arith) in
    (refl, rw (away, c.0) (Chain-append next next' r q xs c.1 d.1 (ground arith) link end same))

pub Distinct-append :
    (xs : List ℕ) (q : ℕ) → Distinct xs → has q xs ≡ false → Distinct (xs ++ q ∷ [])
Distinct-append [] q d h = (refl, tt)
Distinct-append (x ∷ xs) q d h =
    (ground (arith, has-append x xs), Distinct-append xs q d.1 (ground arith))
  where
    has-append : (a : ℕ) (ys : List ℕ) → a ≢ q → has a (ys ++ q ∷ []) ≡ has a ys
    has-append a [] ne = ground arith
    has-append a (y ∷ ys) ne = ground (arith, has-append a ys ne)

-- Every node of a chain but the last leads to a node of the chain.
pub Chain-successor :
    (next : Links) (p : ℕ) (xs : List ℕ) (i : ℕ)
    → Chain next (next p) xs
    → has i (p ∷ xs) ≡ true
    → i ≢ last_of p xs
    → (j : ℕ) × (next i ≡ some j) × (has j (p ∷ xs) ≡ true)
unfolding last_of
Chain-successor next p [] i c h ne = absurd (ground arith)
Chain-successor next p (q ∷ xs) i c h ne = elim (Bool-cases (i == p)) [
  | inl here ↦ (q, ground arith, ground arith)
  | inr later ↦
      let (j, e, k) = Chain-successor next q xs i c.1 (ground arith) ne in (j, e, ground arith)
]

-- From a set of nodes that the links do not leave, a walk never comes to an end.
pub walk_last-closed :
    (next : Links) (l : List ℕ)
    → ((i : ℕ) → has i l ≡ true → (j : ℕ) × (next i ≡ some j) × (has j l ≡ true))
    → (fuel p : ℕ) → has p l ≡ true
    → walk_last fuel next p ≡ none
unfolding walk_last
walk_last-closed next l step zero p h = refl
walk_last-closed next l step (suc fuel) p h =
    let (j, e, k) = step p h in rw (e, walk_last) (walk_last-closed next l step fuel j k)

has-append-left : (a : ℕ) (xs ys : List ℕ) → has a xs ≡ true → has a (xs ++ ys) ≡ true
has-append-left a [] ys h = cc
has-append-left a (x ∷ xs) ys h = elim (Bool-cases (a == x)) [
  | inl e ↦ ground arith
  | inr e ↦ ground (arith, has-append-left a xs ys (ground arith))
]

-- The node behind `pre` taken out, by a link from the node before it to the one behind it.
pub Chain-remove :
    (next next' : Links) (head : Option ℕ) (p : ℕ) (ps : List ℕ) (c : ℕ) (post : List ℕ)
    → Chain next head ((p ∷ ps) ++ c ∷ post)
    → Distinct ((p ∷ ps) ++ c ∷ post)
    → next' (last_of p ps) ≡ next c
    → ((i : ℕ) → i ≢ last_of p ps → next' i ≡ next i)
    → Chain next' head ((p ∷ ps) ++ post)
unfolding last_of
Chain-remove next next' head p [] c post chain d link same = (
  chain.0,
  rw link (Chain-frame next next' (next c) post (λ i h. same i (ground (arith, d.0))) chain.1.1),
)
Chain-remove next next' head p (q ∷ ps) c post chain d link same = (
  chain.0,
  rw
      (same p (λ e.
        absurd
          (ground (arith, has-append-left (last_of q ps) (q ∷ ps) (c ∷ post) (has-last_of q ps)))))
      (Chain-remove next next' (next p) q ps c post chain.1 d.1 link same),
)

-- Pointers to the node before, in step with a chain; `before` is the one of its first node.
abbrev pub Back : Links → Option ℕ → List ℕ → Type 0
Back prev before [] = Unit {0}
Back prev before (p ∷ xs) = (prev p ≡ before) × Back prev (some p) xs

pub Back-last :
    (prev : Links) (before : Option ℕ) (p : ℕ) (ps : List ℕ) (c : ℕ) (post : List ℕ)
    → Back prev before ((p ∷ ps) ++ c ∷ post)
    → prev c ≡ some (last_of p ps)
unfolding last_of
Back-last prev before p [] c post b = b.1.0
Back-last prev before p (q ∷ ps) c post b = Back-last prev (some p) q ps c post b.1
