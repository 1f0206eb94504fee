-- ===== src/Base/Probe.antt =====
-- The search for a free slot of a table of `size`, round from a counter: `while (i < size)` with
-- `slot = counter % size; counter++;` and a return at a slot that is not in use.
use Prim.Native.Nat.{ℕ, zero, suc, ◌+◌, ◌-◌, ◌%◌, ◌<◌, ◌≤◌}
use mathlib.Core.Path.{◌≡◌}
use mathlib.Core.Logic.{inl, inr}
use mathlib.Core.Bool.{Bool, true, false}
use mathlib.Core.Option.{Option, none, some}
use native.Mathlib.Omega.{arith}
use native.Mathlib.Nat.{mod-lt, mod-add-mod, add-mod-mod, add-mod_right, mod-eq_of_lt}
use process_control.Base.Tests.{if◌then◌else◌, Bool-cases}

-- The slot that was found, and the counter behind it.
unfoldable pub probe : (ℕ → Bool) → ℕ → ℕ → ℕ → Option ℕ × ℕ
probe used size zero counter = (none, counter)
probe used size (suc rounds) counter =
    let rest = probe used size rounds (counter + 1) in
    if used (counter % size) then rest else (some (counter % size), counter + 1)

-- A slot that is found is free, it is the one below the counter, and the counter went on by
-- `rounds` at most.
pub record Found (used : ℕ → Bool) (size rounds counter s : ℕ) (out : ℕ) : Type 0 where
  pub is_free : used s ≡ false
  pub at_counter : s ≡ (out - 1) % size
  pub went_on : counter < out
  pub went_at_most : out ≤ counter + rounds

pub probe-Found :
    (used : ℕ → Bool) (size rounds counter s : ℕ)
    → (probe used size rounds counter).0 ≡ some s
    → Found used size rounds counter s (probe used size rounds counter).1
unfolding probe
probe-Found used size zero counter s e = cc
probe-Found used size (suc rounds) counter s e = elim (Bool-cases (used (counter % size))) [
  | inl u ↦
      let rest = probe-Found used size rounds (counter + 1) s (rw u at e) in
      rw u (record {
        is_free = rest.is_free;
        at_counter = rest.at_counter;
        went_on = omega (arith, rest.went_on);
        went_at_most = omega (arith, rest.went_at_most);
      })
  | inr f ↦
      let e' : some (counter % size) ≡ some s = rw f at e in
      let back : counter + 1 - 1 ≡ counter = omega arith in
      rw f (record {
        is_free = ground arith;
        at_counter = rw back (ground arith);
        went_on = omega arith;
        went_at_most = omega arith;
      })
]

-- If none is found, every slot that was looked at is in use, and the counter went round.
pub probe-none :
    (used : ℕ → Bool) (size rounds counter : ℕ)
    → (probe used size rounds counter).0 ≡ none
    → (i : ℕ) → i < rounds
    → used ((counter + i) % size) ≡ true
unfolding probe
probe-none used size zero counter e i h = absurd (omega arith)
probe-none used size (suc rounds) counter e zero h =
    let stay : counter + 0 ≡ counter = omega arith in rw stay (ground arith)
probe-none used size (suc rounds) counter e (suc i) h =
    let shift : counter + suc i ≡ counter + 1 + i = omega arith in
    rw shift (elim (Bool-cases (used (counter % size))) [
      | inl u ↦ probe-none used size rounds (counter + 1) (rw u at e) i (omega arith)
      | inr f ↦ cc (rw f at e)
    ])

-- The slots `counter`, `counter + 1`, … of a whole round are all the slots of the table.
pub round_trip :
    (size counter s : ℕ) → s < size → (counter + (s + size - counter % size) % size) % size ≡ s
round_trip size counter s h =
    let within : counter % size < size = mod-lt counter (omega arith) in
    let whole : counter % size + (s + size - counter % size) ≡ s + size = omega arith in
    rw add-mod-mod (
      rw (← mod-add-mod counter size (s + size - counter % size), whole, add-mod_right)
        (mod-eq_of_lt h))

-- So no slot is free when a search of `size` rounds finds none.
pub probe-full :
    (used : ℕ → Bool) (size counter : ℕ)
    → (probe used size size counter).0 ≡ none
    → (s : ℕ) → s < size
    → used s ≡ true
probe-full used size counter e s h = rw (round_trip size counter s h) at (
    probe-none used size size counter e ((s + size - counter % size) % size)
      (mod-lt (s + size - counter % size) (omega arith)))
