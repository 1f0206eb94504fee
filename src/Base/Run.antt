-- ===== src/Base/Run.antt =====
-- What a kernel routine does: it ends, it hands the processor over and goes on when it is resumed,
-- or it stops. The state is shared, so that a routine that is resumed finds what others left there.
pub mod Laws
use mathlib.Core.List.{List, [], ◌∷◌}
use process_control.Base.Int.{ℤ}

-- `S` is the state, `E` the calls that leave the layer, `R` what such a call returns.
pub data Run (S E R A : Type 0) : Type 0 where
  -- the routine returned
  done : A → S → Run S E R A
  -- a call that leaves the layer, and what the routine does with the answer
  yields : E → S → (R → S → Run S E R A) → Run S E R A
  -- `USLOSS_Halt(code)`
  halted : ℤ → S → Run S E R A
  -- undefined behaviour: a null pointer, an index outside an array, a failed `assert`
  fault : S → Run S E R A
  -- a loop that took more rounds than its fuel
  out_of_fuel : S → Run S E R A

module _ {S E R : Type 0} where
  unfoldable pub bind : {A B : Type 0} → Run S E R A → (A → S → Run S E R B) → Run S E R B
  bind (done a s) f = f a s
  bind (yields e s k) f = yields e s (λ r t. bind (k r t) f)
  bind (halted c s) f = halted c s
  bind (fault s) f = fault s
  bind (out_of_fuel s) f = out_of_fuel s

  -- An environment says what the other processes make of the state during a call, and what the
  -- call returns. `settle` is where a routine ends under it, `calls` what it called on the way.
  unfoldable pub settle : {A : Type 0} → (E → S → R × S) → Run S E R A → Run S E R A
  settle env (done a s) = done a s
  settle env (yields e s k) = let (r, t) = env e s in settle env (k r t)
  settle env (halted c s) = halted c s
  settle env (fault s) = fault s
  settle env (out_of_fuel s) = out_of_fuel s

  unfoldable pub calls : {A : Type 0} → (E → S → R × S) → Run S E R A → List E
  calls env (done a s) = []
  calls env (yields e s k) = let (r, t) = env e s in e ∷ calls env (k r t)
  calls env (halted c s) = []
  calls env (fault s) = []
  calls env (out_of_fuel s) = []
