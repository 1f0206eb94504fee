-- ===== src/Phase4/Sleep/Waking.antt =====
-- removeFromPriorityQueue of phase4a/phase4.c, and a process that sleeps again behind it.
use process_control.Base.{
  ℕ, zero, suc, ◌+◌, ◌*◌, ◌<◌, if◌then◌else◌, ◌≡◌, refl, ap, sym, ◌∙◌, subst, Bool, Option, none,
  some, List, [], ◌∷◌, length, map, arith, inl, inr, Bool-cases,
}
use process_control.Base.Int.{ℤ, pos}
use process_control.Base.Run.{done, yields, settle, calls}
use process_control.Base.Chain.{Chain}
use process_control.Phase4.State.{State, Call, Routine, mbox_recv}
use process_control.Phase4.Sleep.{
  leb_ℤ, wake_until, remove_from_priority_queue, add_to_priority_queue,
}
use process_control.Phase4.Sleep.Order.{sleep_links, end_of, add_to_priority_queue-stale}

-- The processes at the front whose time has come, and the others.
abbrev pub due : (ℕ → ℤ) → ℤ → List ℕ → List ℕ
due es time [] = []
due es time (p ∷ xs) = let rest = due es time xs in if leb_ℤ (es p) time then p ∷ rest else []

abbrev pub asleep : (ℕ → ℤ) → ℤ → List ℕ → List ℕ
asleep es time [] = []
asleep es time (p ∷ xs) = let rest = asleep es time xs in if leb_ℤ (es p) time then rest else p ∷ xs

abbrev pub wake_call : State → ℕ → Call
wake_call s p = mbox_recv (s.shadow_process_table p).mbox_id

abbrev with_head : Option ℕ → State → State
with_head head s = record s { priority_queue_head = head }

-- One round of the loop, by the head of the queue.
round : ℕ → ℤ → State → Option ℕ → Routine (Unit {0})
round fuel time s none = done tt s
round fuel time s (some p) =
    if leb_ℤ (end_of s p) time
    then yields (wake_call s p) (with_head (sleep_links s p) s) (λ _ t. wake_until fuel time t)
    else done tt s

wake_until-round :
    (fuel : ℕ) (time : ℤ) (s : State)
    → wake_until (suc fuel) time s ≡ round fuel time s s.priority_queue_head
unfolding wake_until round
wake_until-round fuel time s = go s.priority_queue_head
  where
    go :
        (o : Option ℕ)
        → (elim o [
          | none ↦ done tt s
          | some p ↦
              if leb_ℤ (s.shadow_process_table p).end_sleep time
              then yields
                  (mbox_recv (s.shadow_process_table p).mbox_id)
                  (record s { priority_queue_head = (s.shadow_process_table p).next })
                  (λ _ t. wake_until fuel time t)
              else done tt s
        ])
          ≡ round fuel time s o
    go none = refl
    go (some p) = refl

-- What a run of the loop makes of a queue of `xs`, with every answer the same number and the state
-- left alone by the calls.
record Woken (fuel : ℕ) (time answer : ℤ) (xs : List ℕ) (s : State) : Type 0 where
  behind : State
  called :
      calls (λ e t. (answer, t)) (wake_until fuel time s)
      ≡ map (wake_call s) (due (end_of s) time xs)
  ended : settle (λ e t. (answer, t)) (wake_until fuel time s) ≡ done tt behind
  chain : Chain (sleep_links behind) behind.priority_queue_head (asleep (end_of s) time xs)
  links : sleep_links behind ≡ sleep_links s

wake_until-Woken :
    (fuel : ℕ) (time answer : ℤ) (xs : List ℕ) (s : State)
    → Chain (sleep_links s) s.priority_queue_head xs
    → length xs < fuel
    → Woken fuel time answer xs s
unfolding settle calls round
wake_until-Woken zero time answer xs s c l = absurd (omega arith)
wake_until-Woken (suc fuel) time answer [] s c l =
    let step = wake_until-round fuel time s ∙ ap (round fuel time s) c in
    record {
      behind = s;
      called = ap (calls (λ e t. (answer, t))) step;
      ended = ap (settle (λ e t. (answer, t))) step;
      chain = c;
      links = refl;
    }
wake_until-Woken (suc fuel) time answer (p ∷ xs) s c l =
    let step = wake_until-round fuel time s ∙ ap (round fuel time s) c.0 in
    elim (Bool-cases (leb_ℤ (end_of s p) time)) [
      | inl e ↦
          let rest =
            wake_until-Woken fuel time answer xs (with_head (sleep_links s p) s) c.1
              (omega arith) in
          let here = step ∙ ap pick e in
          record {
            behind = rest.behind;
            called =
                ap (calls (λ e t. (answer, t))) here
                ∙ ap (λ k. wake_call s p ∷ k) rest.called
                ∙ ap (λ b. map (wake_call s) (if b then p ∷ due (end_of s) time xs else []))
                    (sym e);
            ended = ap (settle (λ e t. (answer, t))) here ∙ rest.ended;
            chain =
                subst (Chain (sleep_links rest.behind) (rest.behind).priority_queue_head)
                  (ap (λ b. if b then asleep (end_of s) time xs else p ∷ xs) (sym e)) rest.chain;
            links = rest.links;
          }
      | inr e ↦
          let here = step ∙ ap pick e in
          record {
            behind = s;
            called =
                ap (calls (λ e t. (answer, t))) here
                ∙ ap (λ b. map (wake_call s) (if b then p ∷ due (end_of s) time xs else []))
                    (sym e);
            ended = ap (settle (λ e t. (answer, t))) here;
            chain =
                subst (Chain (sleep_links s) s.priority_queue_head)
                  (ap (λ b. if b then asleep (end_of s) time xs else p ∷ xs) (sym e)) c;
            links = refl;
          }
    ]
  where
    pick : Bool → Routine (Unit {0})
    pick b =
        if b
        then yields (wake_call s p) (with_head (sleep_links s p) s) (λ _ t. wake_until fuel time t)
        else done tt s

-- With more fuel than the queue is long, the clock daemon receives, in the order of the queue,
-- from the mailbox of each process at its front whose time has come, and the queue is what follows
-- them. The calls leave the state and are all answered by the same number.
pub remove_from_priority_queue-due :
    (fuel : ℕ) (answer : ℤ) (xs : List ℕ) (s : State)
    → Chain (sleep_links s) s.priority_queue_head xs
    → length xs < fuel
    → let time = pos (s.global_clock_ticks * 100) in
      (t : State) × (calls (λ e u. (answer, u)) (remove_from_priority_queue fuel s)
        ≡ map (wake_call s) (due (end_of s) time xs))
      × (settle (λ e u. (answer, u)) (remove_from_priority_queue fuel s) ≡ done tt t)
      × Chain (sleep_links t) t.priority_queue_head (asleep (end_of s) time xs)
unfolding remove_from_priority_queue
remove_from_priority_queue-due fuel answer xs s c l =
    let w = wake_until-Woken fuel (pos (s.global_clock_ticks * 100)) answer xs s c l in
    (w.behind, w.called, w.ended, w.chain)

-- The first process of a queue that the daemon has emptied, all its processes being due, brings
-- the others back when it sleeps again, although they do not sleep: its link still leads to them.
-- The calls of the daemon leave the state and are all answered by the same number.
pub remove_from_priority_queue-stale :
    (fuel : ℕ) (answer : ℤ) (p : ℕ) (ys : List ℕ) (s : State)
    → Chain (sleep_links s) s.priority_queue_head (p ∷ ys)
    → length ys + 1 < fuel
    → asleep (end_of s) (pos (s.global_clock_ticks * 100)) (p ∷ ys) ≡ []
    → (t u : State) × (settle (λ e v. (answer, v)) (remove_from_priority_queue fuel s) ≡ done tt t)
      × (t.priority_queue_head ≡ none)
      × (add_to_priority_queue p t ≡ some u)
      × Chain (sleep_links u) u.priority_queue_head (p ∷ ys)
unfolding remove_from_priority_queue
remove_from_priority_queue-stale fuel answer p ys s c l all_due =
    let w =
      wake_until-Woken fuel (pos (s.global_clock_ticks * 100)) answer (p ∷ ys) s c (omega arith) in
    let t = w.behind in
    let empty : t.priority_queue_head ≡ none =
      subst (Chain (sleep_links t) t.priority_queue_head) all_due w.chain in
    let (u, added, chain) =
      add_to_priority_queue-stale p ys t empty
        (subst (λ next. Chain next (next p) ys) (sym w.links) c.1) in
    (t, u, w.ended, empty, added, chain)
