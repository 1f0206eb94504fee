-- ===== src/Phase1/Queue/Kept.antt =====
-- What addToQueue of phase1b/phase1.c leaves as it is.
use process_control.Base.{ℕ, ◌+◌, ◌≡◌, refl, ◌∙◌, subst, Option, none, some, update_field}
use process_control.Phase1.State.{Process, State, max_proc, put_queue}
use process_control.Phase1.Queue.{
  Walk, Step, ok, bad_index, no_end, at_end, already, endless, queue_links, queue_index, add_at,
  add_to_queue, walk_to, link_behind, set_next, set_prev,
}

-- What holds of the state, and behind each of its two ways to write, holds behind the call.
pub add_to_queue-kept :
    (P : State → Type 0) (node : ℕ) (s t : State)
    → P s
    → ((i : ℕ) → P (put_queue i (some node) s))
    → ((c : ℕ) → P (link_behind c node s))
    → add_to_queue node s ≡ ok t
    → P t
unfolding add_to_queue add_at
add_to_queue-kept P node s t same empty behind e =
    subst Kept e (by_index (queue_index (s.process_table node).priority))
  where
    Kept : Step → Type 0
    Kept (ok u) = P u
    Kept bad_index = Unit {0}
    Kept no_end = Unit {0}

    by_walk :
        (w : Walk)
        → Kept (elim w [
          | at_end current ↦ ok (link_behind current node s)
          | already ↦ ok s
          | endless ↦ no_end
        ])
    by_walk (at_end current) = behind current
    by_walk already = same
    by_walk endless = tt

    by_head :
        (i : ℕ) (o : Option ℕ)
        → Kept (elim o [
          | none ↦ ok (put_queue i (some node) s)
          | some head ↦ elim (walk_to (max_proc + 1) (queue_links s) node head) [
            | at_end current ↦ ok (link_behind current node s)
            | already ↦ ok s
            | endless ↦ no_end
          ]
        ])
    by_head i none = empty i
    by_head i (some head) = by_walk (walk_to (max_proc + 1) (queue_links s) node head)

    by_index : (o : Option ℕ) → Kept (elim o [ none ↦ bad_index | some i ↦ add_at i node s ])
    by_index none = tt
    by_index (some i) = by_head i (s.run_queues i)

module _ {B : Type 0} (g : Process → B)
    (keeps_next : (x : Process) (o : Option ℕ) → g (record x { next_queue_node = o }) ≡ g x)
    (keeps_prev : (x : Process) (o : Option ℕ) → g (record x { prev_queue_node = o }) ≡ g x) where
  link_behind-field :
      (c node : ℕ) (s : State) (k : ℕ)
      → g ((link_behind c node s).process_table k) ≡ g (s.process_table k)
  link_behind-field c node s k =
      let t1 = set_next c (some node) s in
      let t2 = set_prev node (some c) t1 in
      update_field t2.process_table g node _ (keeps_next (t2.process_table node) none) k
      ∙ update_field t1.process_table g node _ (keeps_prev (t1.process_table node) (some c)) k
      ∙ update_field s.process_table g c _ (keeps_next (s.process_table c) (some node)) k

  -- Of a process all but its links.
  pub add_to_queue-field :
      (node : ℕ) (s t : State)
      → add_to_queue node s ≡ ok t
      → (k : ℕ) → g (t.process_table k) ≡ g (s.process_table k)
  add_to_queue-field node s t e =
      add_to_queue-kept (λ u. (k : ℕ) → g (u.process_table k) ≡ g (s.process_table k)) node s t
        (λ k. refl) (λ i k. refl) (λ c k. link_behind-field c node s k) e

-- The process that runs.
pub add_to_queue-running :
    (node : ℕ) (s t : State)
    → add_to_queue node s ≡ ok t
    → t.running_process_id ≡ s.running_process_id
add_to_queue-running node s t e =
    add_to_queue-kept (λ u. u.running_process_id ≡ s.running_process_id) node s t refl (λ i. refl)
      (λ c. refl) e
