-- ===== src/Phase1/FamilyExamples.antt =====
-- The theorems on quit and join of phase1b/phase1.c together with the run queues at concrete states.
use process_control.Base.{
  ℕ, ◌==◌, if◌then◌else◌, ◌≡◌, refl, ap, true, false, Bool, none, some, List, [], ◌∷◌, arith, inl,
  inr, has, update, Bool-cases, ==→eq,
}
use process_control.Base.Int.{pos}
use process_control.Base.Run.{done, bind}
use process_control.Phase1.State.{State}
use process_control.Phase1.State.ProcessState.{runnable, running, blocked, blocked_join, terminated}
use process_control.Base.Chain.{Chain}
use process_control.Base.Probe.{probe}
use process_control.Phase1.Create.{Request, blank, find_slot, fork1}
use process_control.Phase1.Create.Adopting.{fork1-adopts}
use process_control.Phase1.Family.Reaping.{sibling_links}
use process_control.Phase1.Queue.Invariant.{WellQueued}
use process_control.Phase1.Dispatch.{dispatcher}
use process_control.Phase1.Family.{written, join, quit}
use process_control.Phase1.Family.Ending.{quit-unblocks}
use process_control.Phase1.Family.Waiting.{join_again, join-block_me}
use process_control.Phase1.Family.Joining.{join-first_dead}
use process_control.Phase1.QueueExamples.{only_third}
use process_control.Phase1.Scenarios.{family}

-- Process 1 waits for something else than a child; its child 2 runs, and 3 is behind it in the queue.
abbrev parent_and_child : State
parent_and_child = record {
  process_table =
      update
        (update
          (update (λ _. blank) 1
            (record blank {
              is_initialized = true;
              pid = 1;
              priority = pos 3;
              first_child = some 2;
              state = blocked;
            }))
          2
          (record blank {
            is_initialized = true;
            pid = 2;
            priority = pos 3;
            parent = some 1;
            state = running;
            next_queue_node = some 3;
          }))
        3
        (record blank {
          is_initialized = true;
          pid = 3;
          priority = pos 3;
          state = runnable;
          prev_queue_node = some 2;
        });
  run_queues = λ i. if 3 == i then some 2 else none;
  running_process_id = pos 2;
  pid_counter = 4;
  psr = record { kernel_mode = true; interrupts = true };
  clock = 30;
}

abbrev on_third : List ℕ → ℕ → List ℕ
on_third xs i = if 3 == i then xs else []

two_three-own :
    (p : ℕ) → has p (2 ∷ 3 ∷ []) ≡ true → (parent_and_child.process_table p).priority ≡ pos 3
two_three-own p h = elim (Bool-cases (p == 2)) [
  | inl e ↦ ap (λ k. (parent_and_child.process_table k).priority) (==→eq p 2 e)
  | inr e ↦ ap (λ k. (parent_and_child.process_table k).priority) (last e)
]
  where
    last : (p == 2) ≡ false → p ≡ 3
    last e = ground arith

parent_and_child-WellQueued : WellQueued parent_and_child (on_third (2 ∷ 3 ∷ []))
parent_and_child-WellQueued =
    only_third parent_and_child 2 (2 ∷ 3 ∷ []) (λ i. refl)
      (record {
        chain = (refl, (refl, refl));
        back = (refl, (refl, tt));
        distinct = (refl, (refl, tt));
        own = two_three-own;
      })

not_empty : ◌≡◌ {A = List ℕ} (3 ∷ []) [] → ⊥
not_empty e = cc

quit-unblocks_example :
    (t : State) × (quit (pos 9) parent_and_child ≡ dispatcher t)
    × WellQueued t (update (update (on_third (2 ∷ 3 ∷ [])) 3 (3 ∷ [])) 3 (3 ∷ 1 ∷ []))
    × ((k : ℕ)
        → (t.process_table k).state
          ≡ update
              (update (λ m. (parent_and_child.process_table m).state) 2 terminated)
              1
              runnable
              k)
    × ((t.process_table 2).status ≡ pos 9)
quit-unblocks_example =
    quit-unblocks 2 1 3 3 [] (3 ∷ []) (pos 9) parent_and_child (on_third (2 ∷ 3 ∷ [])) refl refl
      refl refl refl refl refl (omega arith) (omega arith) parent_and_child-WellQueued refl refl
      (omega arith) (λ e. absurd (not_empty e))

-- The family of the other module, with both children alive.
abbrev waiting : State
waiting = record (family (pos 1)) {
  process_table =
      update (family (pos 1)).process_table 3
        (record ((family (pos 1)).process_table 3) { state = runnable });
}

waiting-own : (p : ℕ) → has p (1 ∷ 2 ∷ []) ≡ true → (waiting.process_table p).priority ≡ pos 3
waiting-own p h = elim (Bool-cases (p == 1)) [
  | inl e ↦ ap (λ k. (waiting.process_table k).priority) (==→eq p 1 e)
  | inr e ↦ ap (λ k. (waiting.process_table k).priority) (last e)
]
  where
    last : (p == 1) ≡ false → p ≡ 2
    last e = ground arith

waiting-WellQueued : WellQueued waiting (on_third (1 ∷ 2 ∷ []))
waiting-WellQueued =
    only_third waiting 1 (1 ∷ 2 ∷ []) (λ i. refl)
      (record {
        chain = (refl, (refl, refl));
        back = (refl, (refl, tt));
        distinct = (refl, (refl, tt));
        own = waiting-own;
      })

-- The state in which the process is resumed, once the second child has ended.
joined_then : (v : State) × (join 2 (family (pos 1)) ≡ done (pos 3, written (pos 7)) v)
joined_then =
    let (v, e, chain, free) =
      join-first_dead 1 1 3 (2 ∷ []) [] (family (pos 1)) refl (refl, (refl, refl))
        (refl, (refl, tt)) (refl, (refl, tt)) (omega arith) ((refl, refl), tt) refl refl
        (omega arith) refl in
    (v, e)

join-block_me_example :
    (t : State) × (join 3 waiting ≡ bind (dispatcher t) (λ _ x. join_again 2 x))
    × WellQueued t (update (on_third (1 ∷ 2 ∷ [])) 3 (2 ∷ []))
    × ((t.process_table 1).state ≡ blocked_join)
    × (join_again 2 (family (pos 1)) ≡ done (pos 3, written (pos 7)) joined_then.0)
join-block_me_example =
    join-block_me 2 1 3 2 (3 ∷ []) [] (2 ∷ []) waiting (family (pos 1)) joined_then.0
      (on_third (1 ∷ 2 ∷ [])) (pos 3) (pos 7) refl (refl, (refl, refl)) (omega arith)
      ((refl, refl), ((refl, refl), tt)) (omega arith) waiting-WellQueued refl joined_then.1

abbrev granted : Request
granted = record { name = some (120 ∷ []); start_func = some 9; arg = 0; priority = pos 5 }

find_slot-waiting : find_slot waiting ≡ (some 4, 5)
unfolding find_slot probe
find_slot-waiting = refl

four_unused : (j : ℕ) → has 4 (on_third (1 ∷ 2 ∷ []) j) ≡ false
four_unused j = go (3 == j)
  where
    go : (b : Bool) → has 4 (if b then 1 ∷ 2 ∷ [] else []) ≡ false
    go true = refl
    go false = refl

fork1-adopts_example :
    (t : State) × (fork1 (pos 10) granted (pos 20) waiting
      ≡ bind (dispatcher t) (λ _ v. done (pos 4) v))
    × WellQueued t (update (on_third (1 ∷ 2 ∷ [])) 5 (4 ∷ []))
    × Chain (sibling_links t) (t.process_table 1).first_child (4 ∷ 2 ∷ 3 ∷ [])
    × ((t.process_table 1).state ≡ runnable)
fork1-adopts_example =
    fork1-adopts (pos 10) (pos 20) granted 4 5 5 1 (2 ∷ 3 ∷ []) waiting (on_third (1 ∷ 2 ∷ [])) refl
      refl find_slot-waiting refl refl (omega arith) refl refl (λ e. ground arith)
      waiting-WellQueued four_unused (omega arith) (refl, (refl, refl)) refl
