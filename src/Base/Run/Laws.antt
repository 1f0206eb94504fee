-- ===== src/Base/Run/Laws.antt =====
-- How a routine that goes on with another one runs under an environment, and under a list of
-- answers.
use mathlib.Core.Path.{◌≡◌, refl, ap, ◌∙◌}
use mathlib.Core.List.{List, [], ◌∷◌, ◌++◌}
use mathlib.Core.Option.{Option, none, some}
use process_control.Base.Run.{Run, done, yields, halted, fault, out_of_fuel, bind, settle, calls}

module _ {S E R A B : Type 0} (env : E → S → R × S) (f : A → S → Run S E R B) where
  pub settle-bind : (r : Run S E R A) → settle env (bind r f) ≡ settle env (bind (settle env r) f)
  unfolding settle bind
  settle-bind (done a s) = refl
  settle-bind (yields e s k) = let (r, t) = env e s in settle-bind (k r t)
  settle-bind (halted c s) = refl
  settle-bind (fault s) = refl
  settle-bind (out_of_fuel s) = refl

  pub settle-bind-done :
      (r : Run S E R A) (a : A) (t : S)
      → settle env r ≡ done a t
      → settle env (bind r f) ≡ settle env (f a t)
  unfolding bind
  settle-bind-done r a t e = settle-bind r ∙ ap (λ x. settle env (bind x f)) e

  -- What is called behind a routine that ended.
  abbrev after : Run S E R A → List E
  after (done a t) = calls env (f a t)
  after _ = []

  calls-after : (r : Run S E R A) → calls env (bind r f) ≡ calls env r ++ after (settle env r)
  unfolding settle calls bind
  calls-after (done a s) = refl
  calls-after (yields e s k) = let (r, t) = env e s in ap (λ es. e ∷ es) (calls-after (k r t))
  calls-after (halted c s) = refl
  calls-after (fault s) = refl
  calls-after (out_of_fuel s) = refl

  pub calls-bind-done :
      (r : Run S E R A) (a : A) (t : S)
      → settle env r ≡ done a t
      → calls env (bind r f) ≡ calls env r ++ calls env (f a t)
  calls-bind-done r a t e = calls-after r ∙ ap (λ x. calls env r ++ after x) e

-- The calls that the answers take care of, each answer with the state that the routine finds then,
-- and what the routine does next; `none`: there are more answers than calls.
module _ {S E R A : Type 0} where
  abbrev pub called : E → Option (List E × Run S E R A) → Option (List E × Run S E R A)
  called e none = none
  called e (some (es, r)) = some (e ∷ es, r)

  unfoldable pub replay : List (R × S) → Run S E R A → Option (List E × Run S E R A)
  replay [] r = some ([], r)
  replay ((a, t) ∷ rest) (yields e s k) = called e (replay rest (k a t))
  replay (x ∷ rest) _ = none
