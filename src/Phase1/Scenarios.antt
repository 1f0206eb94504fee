-- ===== src/Phase1/Scenarios.antt =====
-- The theorems on zap, fork1, join, removeNode and the start of phase1b/phase1.c at concrete states.
use process_control.Base.{◌==◌, if◌then◌else◌, ◌≡◌, refl, true, none, some, [], ◌∷◌, arith, update}
use process_control.Base.Int.{ℤ, pos, minus_one}
use process_control.Base.Run.{done, halted, settle}
use process_control.Base.Chain.{Chain}
use process_control.Base.Probe.{probe}
use process_control.Phase1.State.{Call, State}
use process_control.Phase1.State.ProcessState.{runnable, running, terminated}
use process_control.Phase1.Zap.{zap}
use process_control.Phase1.Zap.Checks.{zap-Halts}
use process_control.Phase1.Create.{Request, blank, find_slot, fork1}
use process_control.Phase1.Create.Refused.{fork1-refused}
use process_control.Phase1.Family.{written, join}
use process_control.Phase1.Family.Reaping.{sibling_links}
use process_control.Phase1.Family.Joining.{join-first_dead}

abbrev pub quiet : Call → State → ℤ × State
quiet e t = (pos 0, t)

-- Process 1 runs, with the children 2, which is runnable, and 3, which has ended with the status 7;
-- 1 and 2 are on the queue of priority 3.
abbrev pub family : ℤ → State
family running_id = record {
  process_table =
      update
        (update
          (update (λ _. blank) 1
            (record blank {
              is_initialized = true;
              pid = 1;
              priority = pos 3;
              state = running;
              first_child = some 2;
              next_queue_node = some 2;
            }))
          2
          (record blank {
            is_initialized = true;
            pid = 2;
            priority = pos 3;
            state = runnable;
            next_sibling = some 3;
            prev_queue_node = some 1;
          }))
        3
        (record blank {
          is_initialized = true;
          pid = 3;
          priority = pos 3;
          state = terminated;
          status = pos 7;
          prev_sibling = some 2;
        });
  run_queues = λ i. if 3 == i then some 1 else none;
  running_process_id = running_id;
  pid_counter = 4;
  psr = record { kernel_mode = true; interrupts = true };
  clock = 30;
}

join-first_dead_example :
    (t : State) × (join 2 (family (pos 1)) ≡ done (pos 3, written (pos 7)) t)
    × Chain (sibling_links t) (t.process_table 1).first_child (2 ∷ [])
    × (t.process_table 3 ≡ blank)
join-first_dead_example =
    join-first_dead 1 1 3 (2 ∷ []) [] (family (pos 1)) refl (refl, (refl, refl)) (refl, (refl, tt))
      (refl, (refl, tt)) (omega arith) ((refl, refl), tt) refl refl (omega arith) refl

zap-Halts_example : (t : State) × (settle quiet (zap (pos 3) (family (pos 1))) ≡ halted (pos 1) t)
zap-Halts_example = zap-Halts quiet (pos 3) (family (pos 1)) refl

-- A function that is NULL.
abbrev no_function : Request
no_function = record { name = some (97 ∷ []); start_func = none; arg = 0; priority = pos 5 }

find_slot-family : find_slot (family (pos 1)) ≡ (some 4, 5)
unfolding find_slot probe
find_slot-family = refl

fork1-refused_example :
    (t : State) × (fork1 (pos 100) no_function (pos 200) (family (pos 1)) ≡ done minus_one t)
    × ((t.process_table 4).is_initialized ≡ true)
    × (t.run_queues 5 ≡ some 4)
fork1-refused_example =
    fork1-refused (pos 100) (pos 200) no_function 4 5 5 (family (pos 1)) refl refl find_slot-family
      refl refl (omega arith) refl refl
