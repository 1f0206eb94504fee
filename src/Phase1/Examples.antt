-- ===== src/Phase1/Examples.antt =====
-- The theorems on phase1b/phase1.c at concrete states.
use process_control.Base.{
  ℕ, ◌==◌, if◌then◌else◌, ◌≡◌, refl, Bool, true, false, Option, none, some, List, [], ◌∷◌, arith,
  update,
}
use process_control.Base.Int.{pos}
use process_control.Base.Run.{done, yields}
use process_control.Base.Chain.{walk_last}
use process_control.Phase1.State.{Process, ProcessState, State, context_switch}
use process_control.Phase1.State.ProcessState.{runnable, running, blocked}
use process_control.Phase1.Queue.{ok, queue_links, remove_node, rotate}
use process_control.Phase1.Queue.Turns.{rotate-remove_node-cycle}
use process_control.Phase1.Dispatch.{dispatcher}
use process_control.Phase1.Dispatch.Search.{Queued, AllQueued}
use process_control.Phase1.Dispatch.Choice.{SwitchedTo, dispatcher-first_runnable}
use process_control.Phase1.Create.{blank}

abbrev pub process : ℕ → ProcessState → Option ℕ → Option ℕ → Process
process pid state next prev = record blank {
  is_initialized = true;
  pid = pid;
  priority = pos 3;
  state = state;
  next_queue_node = next;
  prev_queue_node = prev;
}

-- Processes 1, 2 and 3 in the queue of priority 3, and 4 on no queue; 1 runs.
abbrev pub queue_of_three : ProcessState → State
queue_of_three others = record {
  process_table =
      update
        (update
          (update (update (λ _. blank) 1 (process 1 running (some 2) none)) 2
            (process 2 others (some 3) (some 1)))
          3 (process 3 others none (some 2)))
        4 (process 4 runnable none none);
  run_queues = λ i. if 3 == i then some 1 else none;
  running_process_id = pos 1;
  pid_counter = 5;
  psr = record { kernel_mode = true; interrupts = true };
  clock = 30;
}

abbrev pub contents : ℕ → List ℕ
contents i = if 3 == i then 1 ∷ 2 ∷ 3 ∷ [] else []

AllQueued-runnable : AllQueued (queue_of_three runnable) contents
AllQueued-runnable i l h = at (3 == i)
  where
    at :
        (b : Bool)
        → Queued
            (queue_of_three runnable).process_table
            (if b then some 1 else none)
            (if b then 1 ∷ 2 ∷ 3 ∷ [] else [])
    at true = record {
      chain = (refl, (refl, (refl, refl)));
      bounded = omega arith;
      has_state = (refl, (refl, (refl, tt)));
    }
    at false = record { chain = refl; bounded = omega arith; has_state = tt }

AllQueued-blocked : AllQueued (queue_of_three blocked) contents
AllQueued-blocked i l h = at (3 == i)
  where
    at :
        (b : Bool)
        → Queued
            (queue_of_three blocked).process_table
            (if b then some 1 else none)
            (if b then 1 ∷ 2 ∷ 3 ∷ [] else [])
    at true = record {
      chain = (refl, (refl, (refl, refl)));
      bounded = omega arith;
      has_state = (refl, (refl, (refl, tt)));
    }
    at false = record { chain = refl; bounded = omega arith; has_state = tt }

dispatcher-first_runnable_example :
    (u : State) × (dispatcher (queue_of_three runnable)
      ≡ yields (context_switch (some 1) 2) u (λ _ v. done tt v))
    × SwitchedTo 1 2 (queue_of_three runnable) u
dispatcher-first_runnable_example =
    dispatcher-first_runnable (queue_of_three runnable) contents 1 2 AllQueued-runnable refl refl
      refl

rotate-remove_node-cycle_example :
    (t u : State) × (rotate 3 (queue_of_three runnable) ≡ ok t)
    × ((k : ℕ)
        → (t.process_table k).prev_queue_node
          ≡ ((queue_of_three runnable).process_table k).prev_queue_node)
    × (queue_links t 1 ≡ none)
    × (remove_node 2 t ≡ ok u)
    × (queue_links u 1 ≡ some 3)
    × (u.run_queues 3 ≡ some 3)
    × ((fuel : ℕ) → walk_last fuel (queue_links u) 3 ≡ none)
rotate-remove_node-cycle_example =
    rotate-remove_node-cycle 3 1 2 3 [] (queue_of_three runnable) refl (refl, (refl, refl))
      (refl, (refl, (refl, tt))) (omega arith) refl refl (omega arith)
