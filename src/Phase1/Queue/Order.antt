-- ===== src/Phase1/Queue/Order.antt =====
-- addToQueue, removeNode and the rotation of timeSlice of phase1b/phase1.c on a queue that is a
-- chain.
use process_control.Base.{
  ℕ, zero, suc, ◌+◌, ◌==◌, ◌<◌, if◌then◌else◌, ◌≡◌, ◌≢◌, refl, ap, sym, ◌∙◌, false, Option, none,
  some, List, [], ◌∷◌, ◌++◌, length, has, arith, lt→ltb, update_self, update_ne, update_field,
  field_update, subst,
}
use process_control.Base.Int.{pos}
use process_control.Base.Chain.{Links, Chain, Distinct, last_of, has-last_of, Chain-append}
use process_control.Phase1.State.{State, max_proc}
use process_control.Phase1.Queue.{
  Walk, Step, at_end, already, endless, ok, bad_index, no_end, queue_links, queue_index, walk_to,
  add_at, add_to_queue, set_next, set_prev, link_behind,
}

walk_to-Chain :
    (fuel : ℕ) (next : Links) (node p : ℕ) (xs : List ℕ)
    → Chain next (next p) xs
    → has node (p ∷ xs) ≡ false
    → length xs < fuel
    → walk_to fuel next node p ≡ at_end (last_of p xs)
unfolding walk_to last_of
walk_to-Chain zero next node p xs c h l = absurd (omega arith)
walk_to-Chain (suc fuel) next node p [] c h l = rw (c, walk_to) refl
walk_to-Chain (suc fuel) next node p (q ∷ xs) c h l =
    let other : (p == node) ≡ false = ground arith in
    simp (c.0, other, walk_to-Chain fuel next node q xs c.1 (ground arith) (omega arith), walk_to)

pub set_next_self : (c : ℕ) (q : Option ℕ) (s : State) → queue_links (set_next c q s) c ≡ q
set_next_self c q s =
    field_update s.process_table (λ x. x.next_queue_node) c _ c ∙ update_self (queue_links s) c q

pub set_next_ne :
    (c : ℕ) (q : Option ℕ) (s : State) (i : ℕ)
    → c ≢ i
    → queue_links (set_next c q s) i ≡ queue_links s i
set_next_ne c q s i ne =
    field_update s.process_table (λ x. x.next_queue_node) c _ i ∙ update_ne (queue_links s) q ne

pub set_prev-links :
    (c : ℕ) (q : Option ℕ) (s : State) (i : ℕ) → queue_links (set_prev c q s) i ≡ queue_links s i
set_prev-links c q s = update_field s.process_table (λ x. x.next_queue_node) c _ refl

module _ (c node : ℕ) (s : State) (ne : c ≢ node) where
  link_behind-before :
      (i : ℕ)
      → node ≢ i
      → queue_links (link_behind c node s) i ≡ queue_links (set_next c (some node) s) i
  link_behind-before i n =
      set_next_ne node none (set_prev node (some c) (set_next c (some node) s)) i n
      ∙ set_prev-links node (some c) (set_next c (some node) s) i

  pub link_behind-last : queue_links (link_behind c node s) c ≡ some node
  link_behind-last = link_behind-before c (λ e. ne (sym e)) ∙ set_next_self c (some node) s

  pub link_behind-end : queue_links (link_behind c node s) node ≡ none
  link_behind-end = set_next_self node none (set_prev node (some c) (set_next c (some node) s))

  pub link_behind-other :
      (i : ℕ) → i ≢ c → i ≢ node → queue_links (link_behind c node s) i ≡ queue_links s i
  link_behind-other i n m =
      link_behind-before i (λ e. m (sym e)) ∙ set_next_ne c (some node) s i (λ e. n (sym e))

pub add_to_queue-add_at :
    (node i : ℕ) (s : State)
    → (s.process_table node).priority ≡ pos i
    → i < 8
    → add_to_queue node s ≡ add_at i node s
unfolding add_to_queue
add_to_queue-add_at node i s e h =
    ap (λ k. elim k [ none ↦ bad_index | some j ↦ add_at j node s ])
      (ap queue_index e ∙ ap (λ b. if b then some i else none) (lt→ltb i 8 h))

-- What addToQueue does behind its walk.
abbrev pub after_walk : ℕ → State → Walk → Step
after_walk node s (at_end current) = ok (link_behind current node s)
after_walk node s already = ok s
after_walk node s endless = no_end

add_at-some :
    (node i p : ℕ) (s : State)
    → s.run_queues i ≡ some p
    → add_at i node s ≡ after_walk node s (walk_to (max_proc + 1) (queue_links s) node p)
unfolding add_at
add_at-some node i p s e = rw (e, add_at) refl

module _ (node i p : ℕ) (xs : List ℕ) (s : State) (prio : (s.process_table node).priority ≡ pos i)
    (within : i < 8) (head : s.run_queues i ≡ some p)
    (c : Chain (queue_links s) (queue_links s p) xs) (d : Distinct (p ∷ xs))
    (fresh : has node (p ∷ xs) ≡ false) (l : length xs < max_proc + 1) where
  apart : last_of p xs ≢ node
  apart eq = absurd (ground (arith, has-last_of p xs))

  pub add_to_queue-link_behind : add_to_queue node s ≡ ok (link_behind (last_of p xs) node s)
  add_to_queue-link_behind =
      add_to_queue-add_at node i s prio within
      ∙ add_at-some node i p s head
      ∙ ap (after_walk node s) (walk_to-Chain (max_proc + 1) (queue_links s) node p xs c fresh l)

  pub link_behind-Chain :
      let t = link_behind (last_of p xs) node s in
      Chain (queue_links t) (t.run_queues i) (p ∷ (xs ++ node ∷ []))
  link_behind-Chain =
      let last = last_of p xs in
      let t = link_behind last node s in
      subst (λ k. Chain (queue_links t) k (p ∷ (xs ++ node ∷ []))) (sym head)
        (Chain-append (queue_links s) (queue_links t) p node xs c d fresh
          (link_behind-last last node s apart) (link_behind-end last node s apart)
          (link_behind-other last node s apart))

-- A process that is not on the queue of its priority, which is a chain of distinct processes, not
-- empty and no longer than the table, becomes the last of it: the queue is the chain of before
-- with the process behind.
pub add_to_queue-append :
    (node i p : ℕ) (xs : List ℕ) (s : State)
    → (s.process_table node).priority ≡ pos i
    → i < 8
    → s.run_queues i ≡ some p
    → Chain (queue_links s) (queue_links s p) xs
    → Distinct (p ∷ xs)
    → has node (p ∷ xs) ≡ false
    → length xs < max_proc + 1
    → (t : State) × (add_to_queue node s ≡ ok t)
      × Chain (queue_links t) (t.run_queues i) (p ∷ (xs ++ node ∷ []))
add_to_queue-append node i p xs s e h head c d fresh l = (
  link_behind (last_of p xs) node s,
  add_to_queue-link_behind node i p xs s e h head c d fresh l,
  link_behind-Chain node i p xs s e h head c d fresh l,
)
