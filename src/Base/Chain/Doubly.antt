-- ===== src/Base/Chain/Doubly.antt =====
-- Lists that are linked both ways: what stays when a node is taken out or put behind.
use Prim.Native.Nat.{ℕ}
use mathlib.Core.Path.{◌≡◌, refl, sym, ◌∙◌}
use mathlib.Core.Logic.{◌≢◌, inl, inr}
use mathlib.Core.Bool.{true, false}
use mathlib.Core.Option.{Option, none, some}
use mathlib.Core.List.{List, [], ◌∷◌, ◌++◌}
use native.Mathlib.Omega.{arith}
use process_control.Base.Tests.{◌==◌, Bool-cases}
use process_control.Base.Lists.{has}
use process_control.Base.Chain.{Links, Chain, Distinct, Back, last_of}

abbrev pub first_of : List ℕ → Option ℕ
first_of [] = none
first_of (p ∷ xs) = some p

pub has-middle :
    (k : ℕ) (pre : List ℕ) (c : ℕ) (post : List ℕ)
    → has k (pre ++ post) ≡ true
    → has k (pre ++ c ∷ post) ≡ true
has-middle k [] c post h = ground arith
has-middle k (p ∷ ps) c post h = elim (Bool-cases (k == p)) [
  | inl e ↦ ground arith
  | inr e ↦ ground (arith, has-middle k ps c post (ground arith))
]

has-not-middle :
    (k : ℕ) (pre : List ℕ) (c : ℕ) (post : List ℕ)
    → has k (pre ++ c ∷ post) ≡ false
    → has k (pre ++ post) ≡ false
has-not-middle k [] c post h = ground arith
has-not-middle k (p ∷ ps) c post h = ground (arith, has-not-middle k ps c post (ground arith))

pub Distinct-remove :
    (pre : List ℕ) (c : ℕ) (post : List ℕ) → Distinct (pre ++ c ∷ post) → Distinct (pre ++ post)
Distinct-remove [] c post d = d.1
Distinct-remove (p ∷ ps) c post d = (has-not-middle p ps c post d.0, Distinct-remove ps c post d.1)

pub Back-frame :
    (prev prev' : Links) (before : Option ℕ) (xs : List ℕ)
    → ((k : ℕ) → has k xs ≡ true → prev' k ≡ prev k)
    → Back prev before xs
    → Back prev' before xs
Back-frame prev prev' before [] same b = tt
Back-frame prev prev' before (p ∷ xs) same b = (
  same p (ground arith) ∙ b.0,
  Back-frame prev prev' (some p) xs (λ k h. same k (ground arith)) b.1,
)

-- The pointer back of the node behind the one that is taken out becomes that one's.
pub Back-remove :
    (prev prev' : Links) (before : Option ℕ) (pre : List ℕ) (c : ℕ) (post : List ℕ)
    → Back prev before (pre ++ c ∷ post)
    → Distinct (pre ++ c ∷ post)
    → ((q : ℕ) → first_of post ≡ some q → prev' q ≡ prev c)
    → ((k : ℕ) → first_of post ≢ some k → prev' k ≡ prev k)
    → Back prev' before (pre ++ post)
Back-remove prev prev' before [] c [] b d behind same = tt
Back-remove prev prev' before [] c (q ∷ qs) b d behind same = (
  behind q refl ∙ b.0,
  Back-frame prev prev' (some q) qs
      (λ k h. same k (λ e. absurd (ground (arith, d.1.0, some_inj e)))) b.1.1,
)
  where
    some_inj : {a k : ℕ} → some a ≡ some k → a ≡ k
    some_inj e = cc
Back-remove prev prev' before (p ∷ ps) c post b d behind same = (
  same p (not_first p ps c post d.0) ∙ b.0,
  Back-remove prev prev' (some p) ps c post b.1 d.1 behind same,
)
  where
    not_first :
        (a : ℕ) (xs : List ℕ) (m : ℕ) (ys : List ℕ)
        → has a (xs ++ m ∷ ys) ≡ false
        → first_of ys ≢ some a
    not_first a xs m [] h e = cc
    not_first a [] m (y ∷ ys) h e = absurd (ground (arith, some_inj e))
      where
        some_inj : some y ≡ some a → y ≡ a
        some_inj f = cc
    not_first a (x ∷ xs) m (y ∷ ys) h e = not_first a xs m (y ∷ ys) (ground arith) e

-- A node is put behind the last one.
pub Back-append :
    (prev prev' : Links) (before : Option ℕ) (p : ℕ) (xs : List ℕ) (q : ℕ)
    → Back prev before (p ∷ xs)
    → has q (p ∷ xs) ≡ false
    → prev' q ≡ some (last_of p xs)
    → ((k : ℕ) → q ≢ k → prev' k ≡ prev k)
    → Back prev' before (p ∷ (xs ++ q ∷ []))
unfolding last_of
Back-append prev prev' before p [] q b new link same = (same p (ground arith) ∙ b.0, (link, tt))
Back-append prev prev' before p (x ∷ xs) q b new link same = (
  same p (ground arith) ∙ b.0,
  Back-append prev prev' (some p) x xs q b.1 (ground arith) link same,
)

-- Where the pointers of a node lead.
pub Chain-first :
    (next : Links) (head : Option ℕ) (pre : List ℕ) (c : ℕ) (post : List ℕ)
    → Chain next head (pre ++ c ∷ post)
    → next c ≡ first_of post
Chain-first next head [] c [] k = k.1
Chain-first next head [] c (q ∷ qs) k = k.1.0
Chain-first next head (p ∷ ps) c post k = Chain-first next (next p) ps c post k.1

has-first : (pre : List ℕ) (c : ℕ) (post : List ℕ) → has c (pre ++ c ∷ post) ≡ true
has-first [] c post = ground arith
has-first (p ∷ ps) c post = ground (arith, has-first ps c post)

pub Chain-first-has :
    (next : Links) (head : Option ℕ) (pre : List ℕ) (c : ℕ) (post : List ℕ) (k : ℕ)
    → Chain next head (pre ++ c ∷ post)
    → next c ≡ some k
    → has k (pre ++ c ∷ post) ≡ true
Chain-first-has next head pre c [] k chain e =
    absurd (no (sym (Chain-first next head pre c [] chain) ∙ e))
  where
    no : (none ≡ some k) → ⊥
    no f = cc
Chain-first-has next head pre c (q ∷ qs) k chain e =
    has-behind pre (some_inj (sym (Chain-first next head pre c (q ∷ qs) chain) ∙ e))
  where
    some_inj : some q ≡ some k → q ≡ k
    some_inj f = cc

    has-behind : (xs : List ℕ) → q ≡ k → has k (xs ++ c ∷ q ∷ qs) ≡ true
    has-behind [] f = ground (arith, f)
    has-behind (x ∷ xs) f = ground (arith, has-behind xs f)

pub Back-has :
    (prev : Links) (before : Option ℕ) (pre : List ℕ) (c : ℕ) (post : List ℕ) (k : ℕ)
    → Back prev before (pre ++ c ∷ post)
    → prev c ≡ some k
    → before ≢ some k
    → has k (pre ++ c ∷ post) ≡ true
Back-has prev before [] c post k b e ne = absurd (ne (sym b.0 ∙ e))
Back-has prev before (p ∷ ps) c post k b e ne = elim (Bool-cases (k == p)) [
  | inl h ↦ ground arith
  | inr h ↦
      ground
        (arith, Back-has prev (some p) ps c post k b.1 e (λ f. absurd (ground (arith, some_inj f))))
]
  where
    some_inj : some p ≡ some k → p ≡ k
    some_inj f = cc

pub not_middle : (q c : ℕ) (pre post : List ℕ) → has q (pre ++ c ∷ post) ≡ false → q ≢ c
not_middle q c [] post e = ground arith
not_middle q c (p ∷ ps) post e = not_middle q c ps post (ground arith)

pub Back-apart :
    (prev : Links) (before : Option ℕ) (pre : List ℕ) (c : ℕ) (post : List ℕ)
    → Back prev before (pre ++ c ∷ post)
    → Distinct (pre ++ c ∷ post)
    → before ≢ some c
    → prev c ≢ some c
Back-apart prev before [] c post b d ne e = ne (sym b.0 ∙ e)
Back-apart prev before (p ∷ ps) c post b d ne e =
    Back-apart prev (some p) ps c post b.1 d.1 (λ f. not_middle p c ps post d.0 (some_inj f)) e
  where
    some_inj : some p ≡ some c → p ≡ c
    some_inj f = cc
