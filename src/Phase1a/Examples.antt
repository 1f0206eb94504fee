-- ===== src/Phase1a/Examples.antt =====
-- The theorems on phase1a/phase1.c at concrete states.
use process_control.Base.{
  ℕ, ◌==◌, if◌then◌else◌, ◌≡◌, ◌⊎◌, refl, true, false, Option, none, some, [], ◌∷◌, arith, update,
}
use process_control.Base.Int.{ℤ, pos, minus_two}
use process_control.Base.Run.{done, yields}
use process_control.Base.Chain.{Chain}
use process_control.Phase1
use process_control.Phase1.State.{ProcessState}
use process_control.Phase1.State.ProcessState.{runnable, running, terminated}
use process_control.Phase1.Family.{written, untouched}
use process_control.Phase1a.State.{Process, State, blank, context_switch}
use process_control.Phase1a.Family.{join, quit}
use process_control.Phase1a.Family.Lifecycle.{sibling_links, quit-join}
use process_control.Phase1a.Equivalence.{of_state, waits, Agree, wait_and_retry, join-same}

abbrev child : ℕ → ProcessState → Option ℕ → Option ℕ → Process
child pid state next prev = record blank {
  is_initialized = true;
  pid = pid;
  priority = pos 3;
  next_sibling = next;
  prev_sibling = prev;
  parent = some 1;
  state = state;
}

-- Process 1 has the children 4, 3 and 2, in this order; the one given runs.
abbrev siblings : ℤ → State
siblings running_id = record {
  process_table =
      update
        (update
          (update
            (update (λ _. blank) 1
              (record blank {
                is_initialized = true;
                pid = 1;
                state = runnable;
                first_child = some 4;
              }))
            2 (child 2 runnable none (some 3)))
          3 (child 3 running (some 2) (some 4)))
        4 (child 4 runnable (some 3) none);
  running_process_id = running_id;
  pid_counter = 5;
  psr = record { kernel_mode = true; interrupts = true };
}

-- The same processes in phase 1b, with process 3 ended and 40 time units gone.
abbrev later : Phase1.State.State
later = record {
  process_table =
      update
        (update (λ _. Phase1.Create.blank) 1
          (record Phase1.Create.blank {
            is_initialized = true;
            pid = 1;
            state = running;
            first_child = some 3;
            start_time = 20;
          }))
        3
        (record Phase1.Create.blank {
          is_initialized = true;
          pid = 3;
          parent = some 1;
          state = terminated;
          status = pos 9;
        });
  run_queues = λ i. if i == 3 then some 1 else none;
  running_process_id = pos 1;
  pid_counter = 5;
  psr = record { kernel_mode = true; interrupts = true };
  clock = 40;
}

join-same_example :
    ((waits later ≡ false) × Agree (Phase1.Family.join 4 later) (join (of_state later)))
    ⊎ ((waits later ≡ true)
        × (Phase1.Family.join 4 later ≡ wait_and_retry 3 later)
        × (join (of_state later) ≡ done (minus_two, untouched) (of_state later)))
join-same_example = join-same 3 later

quit-join_example :
    (t u : State) × (quit (pos 9) (pos 1) (siblings (pos 3))
      ≡ yields (context_switch none 1) t (λ _ x. done tt x))
    × (join t ≡ done (pos 3, written (pos 9)) u)
    × Chain (sibling_links u) (u.process_table 1).first_child (4 ∷ 2 ∷ [])
    × ((u.process_table 3).is_initialized ≡ false)
quit-join_example =
    quit-join 3 1 (4 ∷ []) (2 ∷ []) (pos 9) (siblings (pos 3)) refl refl refl refl
      (refl, (refl, (refl, refl))) (refl, (refl, (refl, tt))) (refl, (refl, (refl, tt))) refl
      (omega arith) ((refl, refl), tt)
