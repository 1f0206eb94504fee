-- ===== src/Base/Tests.antt =====
-- Boolean tests on the native numbers, the conditional, and updates of an array.
use Prim.Native.Nat.{ℕ, ◌<◌, compare, Ordering}
use mathlib.Core.Path.{◌≡◌, refl, ap, ◌∙◌}
use mathlib.Core.Logic.{◌≢◌, ◌⊎◌, inl, inr}
use mathlib.Core.Bool.{Bool, true, false}
use mathlib.Core.Option.{Option, none, some}
use native.Mathlib.Omega.{arith}

abbrev pub ltb : ℕ → ℕ → Bool
ltb a b = elim (compare a b) [ Ordering.lt ↦ true | _ ↦ false ]

abbrev pub leb : ℕ → ℕ → Bool
leb a b = elim (compare a b) [ Ordering.gt ↦ false | _ ↦ true ]

infix 50 ◌==◌
abbrev pub ◌==◌ : ℕ → ℕ → Bool
a == b = elim (compare a b) [ Ordering.eq ↦ true | _ ↦ false ]

infix 1 if◌then◌else◌
abbrev pub if◌then◌else◌ {ℓ} : {A : Type ℓ} → Bool → A → A → A
if true then x else y = x
if false then x else y = y

pub eq→== : (a b : ℕ) → a ≡ b → (a == b) ≡ true
eq→== a b h = ground arith

pub ne→== : (a b : ℕ) → a ≢ b → (a == b) ≡ false
ne→== a b h = ground arith

pub ==→eq : (a b : ℕ) → (a == b) ≡ true → a ≡ b
==→eq a b h = ground arith

pub ==→ne : (a b : ℕ) → (a == b) ≡ false → a ≢ b
==→ne a b h = ground arith

pub lt→ltb : (a b : ℕ) → a < b → ltb a b ≡ true
lt→ltb a b h = ground arith

pub Bool-cases : (b : Bool) → (b ≡ true) ⊎ (b ≡ false)
Bool-cases true = inl refl
Bool-cases false = inr refl

pub Option-cases {ℓ} : {A : Type ℓ} (o : Option A) → (o ≡ none) ⊎ ((a : A) × (o ≡ some a))
Option-cases none = inl refl
Option-cases (some a) = inr (a, refl)

module _ {ℓ} {A : Type ℓ} where
  abbrev pub is_none : Option A → Bool
  is_none none = true
  is_none (some _) = false

  -- An array is a function of the index; a write at one index.
  abbrev pub update : (ℕ → A) → ℕ → A → ℕ → A
  update f p v q = if p == q then v else f q

  pub update_self : (f : ℕ → A) (p : ℕ) (v : A) → update f p v p ≡ v
  update_self f p v = ground arith

  pub update_ne : (f : ℕ → A) {p q : ℕ} (v : A) → p ≢ q → update f p v q ≡ f q
  update_ne f v h = ground arith

-- A write that keeps what `g` reads of the entry keeps it of every entry.
pub update_field {ℓ κ} :
    {A : Type ℓ} {B : Type κ} (f : ℕ → A) (g : A → B) (p : ℕ) (v : A)
    → g v ≡ g (f p)
    → (i : ℕ) → g (update f p v i) ≡ g (f i)
update_field f g p v e i = elim (Bool-cases (p == i)) [
  | inl h ↦ rw h (e ∙ ap (λ k. g (f k)) (==→eq p i h))
  | inr h ↦ rw h refl
]

-- What `g` reads of the entries, behind a write.
pub field_update {ℓ κ} :
    {A : Type ℓ} {B : Type κ} (f : ℕ → A) (g : A → B) (p : ℕ) (v : A) (i : ℕ)
    → g (update f p v i) ≡ update (λ k. g (f k)) p (g v) i
field_update f g p v i = elim (Bool-cases (p == i)) [ inl h ↦ rw h refl | inr h ↦ rw h refl ]
