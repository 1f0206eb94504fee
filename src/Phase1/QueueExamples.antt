-- ===== src/Phase1/QueueExamples.antt =====
-- The theorems on the run queues of phase1b/phase1.c as a whole at concrete states.
use process_control.Base.{
  ℕ, ◌==◌, if◌then◌else◌, ◌≡◌, refl, ap, sym, subst, ◌∙◌, true, false, none, some, List, [], ◌∷◌,
  arith, inl, inr, has, update, Bool-cases, ==→eq,
}
use process_control.Base.Int.{pos}
use process_control.Base.Chain.{Chain}
use process_control.Phase1.State.{State}
use process_control.Base.Run.{done, bind}
use process_control.Phase1.State.ProcessState.{runnable, blocked, blocked_zap}
use process_control.Phase1.Zap.{zap}
use process_control.Phase1.Zap.Blocking.{zap-block_me}
use process_control.Phase1.Queue.{ok, queue_links, add_to_queue, remove_node}
use process_control.Phase1.Queue.Invariant.{IsQueue, WellQueued, remove_node-WellQueued}
use process_control.Phase1.Queue.Adding.{add_to_queue-WellQueued}
use process_control.Phase1.Queue.Stale.{add_to_queue-remove_node-stale}
use process_control.Phase1.Dispatch.{dispatcher, block_me, unblock_proc}
use process_control.Phase1.Dispatch.Blocking.{block_me-WellQueued, unblock_proc-WellQueued}
use process_control.Phase1.Examples.{process, queue_of_three, contents}

abbrev three : State
three = queue_of_three runnable

three-own : (p : ℕ) → has p (1 ∷ 2 ∷ 3 ∷ []) ≡ true → (three.process_table p).priority ≡ pos 3
three-own p h = elim (Bool-cases (p == 1)) [
  | inl e ↦ ap (λ k. (three.process_table k).priority) (==→eq p 1 e)
  | inr e ↦ elim (Bool-cases (p == 2)) [
    | inl f ↦ ap (λ k. (three.process_table k).priority) (==→eq p 2 f)
    | inr f ↦ ap (λ k. (three.process_table k).priority) (last e f)
  ]
]
  where
    last : (p == 1) ≡ false → (p == 2) ≡ false → p ≡ 3
    last e f = ground arith

-- A state in which only the queue of priority 3 has processes.
pub only_third :
    (s : State) (head : ℕ) (xs : List ℕ)
    → ((i : ℕ) → s.run_queues i ≡ (if 3 == i then some head else none))
    → IsQueue s 3 xs
    → WellQueued s (λ i. if 3 == i then xs else [])
only_third s head xs heads third i l = elim (Bool-cases (3 == i)) [
  | inl e ↦ subst (λ k. IsQueue s k (if 3 == k then xs else [])) (==→eq 3 i e) third
  | inr e ↦ subst (IsQueue s i) (sym (ap (λ b. if b then xs else []) e)) (record {
    chain = heads i ∙ ap (λ b. if b then some head else none) e;
    back = tt;
    distinct = tt;
    own = λ p h. cc;
  })
]

three-WellQueued : WellQueued three contents
three-WellQueued =
    only_third three 1 (1 ∷ 2 ∷ 3 ∷ []) (λ i. refl)
      (record {
        chain = (refl, (refl, (refl, refl)));
        back = (refl, (refl, (refl, tt)));
        distinct = (refl, (refl, (refl, tt)));
        own = three-own;
      })

remove_node-WellQueued_example :
    (t : State) × (remove_node 2 three ≡ ok t) × WellQueued t (update contents 3 (1 ∷ 3 ∷ []))
remove_node-WellQueued_example =
    remove_node-WellQueued 3 2 (1 ∷ []) (3 ∷ []) three contents (omega arith) three-WellQueued refl

add_to_queue-WellQueued_example :
    (t : State) × (add_to_queue 4 three ≡ ok t)
    × WellQueued t (update contents 3 (1 ∷ 2 ∷ 3 ∷ 4 ∷ []))
add_to_queue-WellQueued_example =
    add_to_queue-WellQueued 4 3 three contents refl (omega arith) three-WellQueued refl
      (omega arith) (λ e. (refl, refl))

block_me-WellQueued_example :
    (t : State) × (block_me (pos 12) three ≡ dispatcher t)
    × WellQueued t (update contents 3 (2 ∷ 3 ∷ []))
    × ((t.process_table 1).state ≡ blocked)
block_me-WellQueued_example =
    block_me-WellQueued 1 3 [] (2 ∷ 3 ∷ []) (pos 12) three contents refl (omega arith)
      three-WellQueued refl refl

unblock_proc-WellQueued_example :
    (t : State) × (unblock_proc (pos 4) three ≡ dispatcher t)
    × WellQueued t (update contents 3 (1 ∷ 2 ∷ 3 ∷ 4 ∷ []))
    × ((k : ℕ)
        → (t.process_table k).state ≡ update (λ j. (three.process_table j).state) 4 runnable k)
unblock_proc-WellQueued_example =
    unblock_proc-WellQueued 4 3 three contents refl (omega arith) three-WellQueued refl
      (omega arith) (λ e. (refl, refl))

-- Processes 1 and 2 only.
abbrev two : State
two = record three {
  process_table =
      update (update three.process_table 3 (process 3 runnable none none)) 2
        (process 2 runnable none (some 1));
}

abbrev two_contents : ℕ → List ℕ
two_contents i = if 3 == i then 1 ∷ 2 ∷ [] else []

two-own : (p : ℕ) → has p (1 ∷ 2 ∷ []) ≡ true → (two.process_table p).priority ≡ pos 3
two-own p h = elim (Bool-cases (p == 1)) [
  | inl e ↦ ap (λ k. (two.process_table k).priority) (==→eq p 1 e)
  | inr e ↦ ap (λ k. (two.process_table k).priority) (last e)
]
  where
    last : (p == 1) ≡ false → p ≡ 2
    last e = ground arith

two-WellQueued : WellQueued two two_contents
two-WellQueued =
    only_third two 1 (1 ∷ 2 ∷ []) (λ i. refl)
      (record {
        chain = (refl, (refl, refl));
        back = (refl, (refl, tt));
        distinct = (refl, (refl, tt));
        own = two-own;
      })

add_to_queue-remove_node-stale_example :
    (t u v : State) × (remove_node 1 two ≡ ok t)
    × (remove_node 2 t ≡ ok u)
    × (u.run_queues 3 ≡ none)
    × (add_to_queue 1 u ≡ ok v)
    × Chain (queue_links v) (v.run_queues 3) (1 ∷ 2 ∷ [])
add_to_queue-remove_node-stale_example =
    add_to_queue-remove_node-stale 3 1 2 two two_contents (omega arith) two-WellQueued refl

-- Process 1 zaps 3, which nobody else zaps.
zap-block_me_example :
    (t : State) × (zap (pos 3) three
      ≡ bind (dispatcher t) (λ _ u. done tt (record u { psr = three.psr })))
    × WellQueued t (update contents 3 (2 ∷ 3 ∷ []))
    × ((t.process_table 1).state ≡ blocked_zap)
    × ((t.process_table 3).zap_head ≡ some 1)
    × ((t.process_table 1).next_zap_node ≡ none)
zap-block_me_example =
    zap-block_me 3 1 3 [] (2 ∷ 3 ∷ []) three contents refl (omega arith) (λ e. ground arith)
      (λ e. ground arith) refl refl refl refl (omega arith) three-WellQueued refl
