-- ===== src/Phase3/Examples.antt =====
-- The theorems on phase3/phase3.c at concrete states.
use process_control.Base.{
  ℕ, ◌≤◌, ◌==◌, if◌then◌else◌, ◌≡◌, refl, false, none, some, [], ◌∷◌, inl, arith, ltb, lt→ltb,
}
use process_control.Base.Int.{ℤ, pos, minus_one, minus_two}
use process_control.Base.Run.{done, yields, settle}
use process_control.Base.Sysargs.{Sysargs}
use process_control.Phase3.State.{Shadow, State, Answer, mbox_recv, mbox_send, join, quit}
use process_control.Phase3.Semaphore.{add_value, settle_call, kern_sem_p, kern_sem_v}
use process_control.Phase3.Semaphore.Counting.{kern_sem_p-acquire, kern_sem_v-release}
use process_control.Phase3.Semaphore.Creation.{IsFilled}
use process_control.Phase3.Spawn.{kern_spawn, kern_terminate}
use process_control.Phase3.Spawn.Ending.{kern_terminate-quit}
use process_control.Base.Run.Laws.{replay}
use process_control.Phase3.Spawn.Drift.{kern_spawn-drift}

abbrev args_of : ℤ → Sysargs
args_of arg1 = record { arg1 = arg1; arg2 = pos 9; arg3 = pos 0; arg4 = pos 0; arg5 = pos 0 }

abbrev answer_of : ℤ → Answer
answer_of result = record { result = result; status = pos 0 }

abbrev no_shadow : Shadow
no_shadow = record { pid = 0; start_func = none; arg = pos 0 }

-- Two semaphores: the first with the value given, the second with the value 1.
abbrev pub two_semaphores : ℤ → State
two_semaphores value = record {
  shadow_process_table = λ _. no_shadow;
  semaphore_table = λ i.
      if ltb i 2
      then record { sem_id = i; mbox_id = pos 7; value = if i == 0 then value else pos 1 }
      else record { sem_id = 0; mbox_id = pos 0; value = pos 0 };
  pid_counter = 5;
  sem_counter = 2;
}

kern_sem_p-acquire_example :
    (kern_sem_p (args_of (pos 0)) (two_semaphores (pos 0))
      ≡ yields
          (mbox_recv (pos 7))
          (add_value 0 minus_one (two_semaphores (pos 0)))
          (settle_call 0 (pos 1) (args_of (pos 0))))
    × (((add_value 0 minus_one (two_semaphores (pos 0))).semaphore_table 0).value ≡ minus_one)
kern_sem_p-acquire_example =
    kern_sem_p-acquire (args_of (pos 0)) (two_semaphores (pos 0)) 0
      (record { count = 0; waiting = 0 }) refl (omega arith) (refl, inl refl)

kern_sem_v-release_example :
    (kern_sem_v (args_of (pos 0)) (two_semaphores minus_one)
      ≡ yields
          (mbox_send (pos 7))
          (add_value 0 (pos 1) (two_semaphores minus_one))
          (settle_call 0 minus_one (args_of (pos 0))))
    × (((add_value 0 (pos 1) (two_semaphores minus_one)).semaphore_table 0).value ≡ pos 0)
kern_sem_v-release_example =
    kern_sem_v-release (args_of (pos 0)) (two_semaphores minus_one) 0
      (record { count = 0; waiting = 1 }) refl (omega arith) (refl, inl refl)

pub two-IsFilled : IsFilled (two_semaphores (pos 0))
two-IsFilled = record { below = λ j h. rw (lt→ltb j 2 h) refl; above = λ j h. rw (high j h) refl }
  where
    high : (j : ℕ) → 2 ≤ j → ltb j 2 ≡ false
    high j h = ground arith

kern_spawn-drift_example :
    (t : State) × (settle
        (λ e u. (answer_of minus_one, u))
        (kern_spawn (args_of (pos 100)) (two_semaphores (pos 0)))
      ≡ done (record (args_of (pos 100)) { arg1 = minus_one }) t)
    × ((u : State) × (settle (λ e v. (answer_of (pos 5), v)) (kern_spawn (args_of (pos 200)) t)
          ≡ done (record (args_of (pos 200)) { arg1 = pos 5 }) u)
        × (u.shadow_process_table 5 ≡ record { pid = 5; start_func = some 100; arg = pos 9 }))
kern_spawn-drift_example =
    kern_spawn-drift (args_of (pos 100)) (args_of (pos 200)) (answer_of minus_one)
      (answer_of (pos 5)) (two_semaphores (pos 0)) refl

-- Two children, 6 and 7, the second of which leaves another state behind.
abbrev child_of : ℤ → ℤ → Answer
child_of pid status = record { result = pid; status = status }

kern_terminate-quit_example :
    replay
      ((child_of (pos 6) (pos 1), two_semaphores (pos 0))
        ∷ (child_of (pos 7) (pos 2), two_semaphores (pos 4))
        ∷ (child_of minus_two (pos 0), two_semaphores (pos 5))
        ∷ [])
      (kern_terminate 3 (args_of (pos 8)) (two_semaphores (pos 3)))
    ≡ some (
      join ∷ join ∷ join ∷ [],
      yields
          (quit (pos 8))
          (two_semaphores (pos 5))
          (λ _ u. done (record (args_of (pos 8)) { arg1 = pos 2 }) u),
    )
kern_terminate-quit_example =
    kern_terminate-quit 3 (args_of (pos 8))
      ((child_of (pos 6) (pos 1), two_semaphores (pos 0))
        ∷ (child_of (pos 7) (pos 2), two_semaphores (pos 4))
        ∷ [])
      (child_of minus_two (pos 0)) (two_semaphores (pos 3)) (two_semaphores (pos 5)) (omega arith)
      (refl, (refl, tt)) refl
