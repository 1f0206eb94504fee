-- ===== src/Phase3/Spawn/Ending.antt =====
-- kernTerminate of phase3/phase3.c: the loop over join comes to its end.
use process_control.Base.{
  ℕ, zero, suc, ◌+◌, ◌<◌, ◌≡◌, ap, ◌∙◌, true, false, if◌then◌else◌, some, List, [], ◌∷◌, ◌++◌,
  length, All, arith,
}
use process_control.Base.Int.{ℤ, minus_two, eqb_ℤ}
use process_control.Base.Run.{done, yields, bind}
use process_control.Base.Run.Laws.{replay, called}
use process_control.Base.Sysargs.{Sysargs}
use process_control.Phase3.State.{State, Answer, Call, Routine, join, quit}
use process_control.Phase3.Spawn.{join_all, kern_terminate}

-- An answer of join that is a child, not the -2 of a process without children.
abbrev pub IsChild : Answer × State → Type 0
IsChild x = eqb_ℤ x.0.result minus_two ≡ false

abbrev pub joins : ℕ → List Call
joins zero = []
joins (suc n) = join ∷ joins n

-- The status that the loop leaves: that of the last child, or the one it began with.
abbrev pub last_status : ℤ → List (Answer × State) → ℤ
last_status status [] = status
last_status status ((answer, t) ∷ children) = last_status answer.status children

abbrev quits : Sysargs → ℤ → State → Routine Sysargs
quits args status t = yields (quit args.arg1) t (λ _ u. done (record args { arg1 = status }) u)

join_all-replay :
    (fuel : ℕ) (args : Sysargs) (status : ℤ) (children : List (Answer × State)) (answer : Answer)
    (s t : State)
    → length children < fuel
    → All IsChild children
    → eqb_ℤ answer.result minus_two ≡ true
    → replay (children ++ (answer, t) ∷ []) (bind (join_all fuel status s) (quits args))
      ≡ some (joins (suc (length children)), quits args (last_status status children) t)
unfolding join_all bind replay
join_all-replay zero args status children answer s t short are last = absurd (omega arith)
join_all-replay (suc fuel) args status [] answer s t short are last =
    ap
      (λ b. called join (
        replay [] (bind (if b then done status t else join_all fuel answer.status t) (quits args))))
      last
join_all-replay (suc fuel) args status ((child, u) ∷ children) answer s t short are last =
    ap
      (λ b. called join (
        replay (children ++ (answer, t) ∷ [])
          (bind (if b then done status u else join_all fuel child.status u) (quits args))))
      are.0
    ∙ ap (called join)
        (join_all-replay fuel args child.status children answer u t (omega arith) are.1 last)

-- A process with n children, whatever the other processes make of the state meanwhile, joins n + 1
-- times, the last time in vain, and then quits with the status that it was called with, when the fuel
-- is above n; were quit to return, the first argument would be the status of the last child.
pub kern_terminate-quit :
    (fuel : ℕ) (args : Sysargs) (children : List (Answer × State)) (answer : Answer) (s t : State)
    → length children < fuel
    → All IsChild children
    → eqb_ℤ answer.result minus_two ≡ true
    → replay (children ++ (answer, t) ∷ []) (kern_terminate fuel args s)
      ≡ some (
        joins (length children + 1),
        yields
            (quit args.arg1)
            t
            (λ _ u. done (record args { arg1 = last_status args.arg1 children }) u),
      )
unfolding kern_terminate
kern_terminate-quit fuel args children answer s t short are last =
    join_all-replay fuel args args.arg1 children answer s t short are last
    ∙ ap (λ n. some (joins n, quits args (last_status args.arg1 children) t))
        (one_more (length children))
  where
    one_more : (n : ℕ) → suc n ≡ n + 1
    one_more n = omega arith
