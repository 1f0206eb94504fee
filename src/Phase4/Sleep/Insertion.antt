-- ===== src/Phase4/Sleep/Insertion.antt =====
-- Lists of processes by the time they wake, and how addToPriorityQueue of phase4a/phase4.c walks them.
use process_control.Base.{
  ℕ, zero, suc, ◌+◌, ◌<◌, ltb, if◌then◌else◌, ◌≡◌, ◌≢◌, refl, ap, sym, ◌∙◌, subst, Bool, true,
  false, not, some, List, [], ◌∷◌, length, has, arith, inl, inr, Bool-cases,
}
use process_control.Base.Int.{ℤ, pos_part, neg_part}
use process_control.Base.Chain.{Links, Chain, Distinct, Chain-frame}
use process_control.Phase4.State.{Sleeper}
use process_control.Phase4.Sleep.{leb_ℤ, last_not_after}

-- Where a process goes in a list by the time it wakes: before the first one if it wakes no later,
-- and otherwise behind all that wake no later than it does.
abbrev pub insert_behind : (ℕ → ℤ) → ℕ → List ℕ → List ℕ
insert_behind es p [] = p ∷ []
insert_behind es p (q ∷ xs) =
    let rest = insert_behind es p xs in if leb_ℤ (es q) (es p) then q ∷ rest else p ∷ q ∷ xs

abbrev pub insert : (ℕ → ℤ) → ℕ → List ℕ → List ℕ
insert es p [] = p ∷ []
insert es p (h ∷ xs) = if leb_ℤ (es p) (es h) then p ∷ h ∷ xs else h ∷ insert_behind es p xs

abbrev pub IsSorted : (ℕ → ℤ) → List ℕ → Type 0
IsSorted es [] = Unit {0}
IsSorted es (x ∷ []) = Unit {0}
IsSorted es (x ∷ y ∷ xs) = (leb_ℤ (es x) (es y) ≡ true) × IsSorted es (y ∷ xs)

leb_ℤ-total : (a b : ℤ) → leb_ℤ a b ≡ false → leb_ℤ b a ≡ true
leb_ℤ-total a b h = total (pos_part a) (neg_part a) (pos_part b) (neg_part b) h
  where
    total : (k l m n : ℕ) → not (ltb (m + l) (k + n)) ≡ false → not (ltb (k + n) (m + l)) ≡ true
    total k l m n h = ground arith

insert_behind-IsSorted :
    (es : ℕ → ℤ) (p h : ℕ) (xs : List ℕ)
    → leb_ℤ (es h) (es p) ≡ true
    → IsSorted es (h ∷ xs)
    → IsSorted es (h ∷ insert_behind es p xs)
insert_behind-IsSorted es p h [] l s = (l, tt)
insert_behind-IsSorted es p h (q ∷ xs) l s = elim (Bool-cases (leb_ℤ (es q) (es p))) [
  | inl e ↦
      subst (λ ys. IsSorted es (h ∷ ys))
        (ap (λ b. if b then q ∷ insert_behind es p xs else p ∷ q ∷ xs) (sym e))
        (s.0, insert_behind-IsSorted es p q xs e s.1)
  | inr e ↦
      subst (λ ys. IsSorted es (h ∷ ys))
        (ap (λ b. if b then q ∷ insert_behind es p xs else p ∷ q ∷ xs) (sym e))
        (l, (leb_ℤ-total (es q) (es p) e, s.1))
]

pub insert-IsSorted :
    (es : ℕ → ℤ) (p : ℕ) (xs : List ℕ) → IsSorted es xs → IsSorted es (insert es p xs)
insert-IsSorted es p [] s = tt
insert-IsSorted es p (h ∷ xs) s = elim (Bool-cases (leb_ℤ (es p) (es h))) [
  | inl e ↦
      subst (IsSorted es) (ap (λ b. if b then p ∷ h ∷ xs else h ∷ insert_behind es p xs) (sym e))
        (e, s)
  | inr e ↦
      subst (IsSorted es) (ap (λ b. if b then p ∷ h ∷ xs else h ∷ insert_behind es p xs) (sym e))
        (insert_behind-IsSorted es p h xs (leb_ℤ-total (es p) (es h) e) s)
]

-- The process behind which the new one goes.
pub stop : (ℕ → ℤ) → ℤ → ℕ → List ℕ → ℕ
stop es priority h [] = h
stop es priority h (q ∷ xs) =
    let rest = stop es priority q xs in if leb_ℤ (es q) priority then rest else h

module _ (es : ℕ → ℤ) (priority : ℤ) (h q : ℕ) (xs : List ℕ) where
  stop-on : leb_ℤ (es q) priority ≡ true → stop es priority h (q ∷ xs) ≡ stop es priority q xs
  unfolding stop
  stop-on e = ap (λ b. if b then stop es priority q xs else h) e

  stop-off : leb_ℤ (es q) priority ≡ false → stop es priority h (q ∷ xs) ≡ h
  unfolding stop
  stop-off e = ap (λ b. if b then stop es priority q xs else h) e

pub last_not_after-stop :
    (fuel : ℕ) (table : ℕ → Sleeper) (priority : ℤ) (h : ℕ) (xs : List ℕ)
    → Chain (λ i. (table i).next) (table h).next xs
    → length xs < fuel
    → last_not_after fuel table priority h ≡ some (stop (λ i. (table i).end_sleep) priority h xs)
unfolding last_not_after stop
last_not_after-stop zero table priority h xs c l = absurd (omega arith)
last_not_after-stop (suc fuel) table priority h [] c l = rw (c, last_not_after) refl
last_not_after-stop (suc fuel) table priority h (q ∷ xs) c l =
    let rest = last_not_after-stop fuel table priority q xs c.1 (omega arith) in
    elim (Bool-cases (leb_ℤ (table q).end_sleep priority)) [
      | inl e ↦ simp (c.0, e, rest, last_not_after, stop)
      | inr e ↦ simp (c.0, e, last_not_after, stop)
    ]

pub has-stop :
    (es : ℕ → ℤ) (priority : ℤ) (h : ℕ) (xs : List ℕ) → has (stop es priority h xs) (h ∷ xs) ≡ true
unfolding stop
has-stop es priority h [] = here h
  where
    here : (a : ℕ) → has a (a ∷ []) ≡ true
    here a = ground arith
has-stop es priority h (q ∷ xs) = elim (Bool-cases (leb_ℤ (es q) priority)) [
  | inl e ↦
      ap (λ k. has k (h ∷ q ∷ xs)) (stop-on es priority h q xs e)
      ∙ later (stop es priority q xs) (has-stop es priority q xs)
  | inr e ↦ ap (λ k. has k (h ∷ q ∷ xs)) (stop-off es priority h q xs e) ∙ first
]
  where
    later : (a : ℕ) → has a (q ∷ xs) ≡ true → has a (h ∷ q ∷ xs) ≡ true
    later a e = ground arith

    first : has h (h ∷ q ∷ xs) ≡ true
    first = ground arith

pub Chain-insert_behind :
    (next next' : Links) (es : ℕ → ℤ) (p h : ℕ) (xs : List ℕ)
    → Chain next (next h) xs
    → Distinct (h ∷ xs)
    → has p (h ∷ xs) ≡ false
    → next' (stop es (es p) h xs) ≡ some p
    → next' p ≡ next (stop es (es p) h xs)
    → ((i : ℕ) → i ≢ stop es (es p) h xs → i ≢ p → next' i ≡ next i)
    → Chain next' (next' h) (insert_behind es p xs)
unfolding stop
Chain-insert_behind next next' es p h [] c d fresh link back same = (link, back ∙ c)
Chain-insert_behind next next' es p h (q ∷ xs) c d fresh link back same =
    elim (Bool-cases (leb_ℤ (es q) (es p))) [
      | inl e ↦
          let at = stop-on es (es p) h q xs e in
          let last = stop es (es p) q xs in
          let away : h ≢ last = λ eq. absurd (ground (arith, d.0, has-stop es (es p) q xs)) in
          subst (λ ys. Chain next' (next' h) ys) (sym (ap choose e))
            (
              same h (λ eq. away (eq ∙ at)) (ground arith) ∙ c.0,
              Chain-insert_behind next next' es p q xs c.1 d.1 (ground arith)
                  (ap next' (sym at) ∙ link) (back ∙ ap next at)
                  (λ i n m. same i (λ eq. n (eq ∙ at)) m),
            )
      | inr e ↦
          let at = stop-off es (es p) h q xs e in
          subst (λ ys. Chain next' (next' h) ys) (sym (ap choose e))
            (
              ap next' (sym at) ∙ link,
              (
                back ∙ ap next at ∙ c.0,
                subst (λ k. Chain next' k xs)
                    (sym (same q (λ eq. absurd (ground (arith, d.0, eq ∙ at))) (ground arith)))
                    (Chain-frame next next' (next q) xs
                      (λ i k. same i (λ eq. absurd (ground (arith, d.0, eq ∙ at))) (ground arith))
                      c.1),
              ),
            )
    ]
  where
    choose : Bool → List ℕ
    choose b = if b then q ∷ insert_behind es p xs else p ∷ q ∷ xs
