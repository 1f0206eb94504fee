-- ===== src/Phase1/Queue/Removed.antt =====
-- What removeNode of phase1b/phase1.c writes, field by field.
use process_control.Base.{
  ℕ, ◌<◌, if◌then◌else◌, ◌≡◌, ◌≢◌, refl, ap, sym, ◌∙◌, Bool, true, false, Option, none, some,
  update, update_self, update_ne, update_field, field_update,
}
use process_control.Base.Int.{pos}
use process_control.Phase1.State.{Process, State, put_queue}
use process_control.Phase1.Queue.{
  ok, queue_links, remove_at, remove_node, set_next, set_prev, unlink_prev, unlink_next,
  unlink_head, is_head,
}
use process_control.Phase1.Queue.Order.{set_next_ne, set_prev-links}
use process_control.Phase1.Queue.Turns.{remove_node-remove_at}
use process_control.Phase1.Queue.Removal.{back_links}

abbrev pub removed : ℕ → ℕ → State → State
removed i c s = unlink_head i c (unlink_next c (unlink_prev c s))

pub remove_node-removed :
    (i c h : ℕ) (s : State)
    → (s.process_table c).priority ≡ pos i
    → i < 8
    → s.run_queues i ≡ some h
    → remove_node c s ≡ ok (removed i c s)
unfolding remove_at
remove_node-removed i c h s prio within e =
    remove_node-remove_at c i s prio within
    ∙ ap (λ o. ok (elim o [ none ↦ s | some _ ↦ removed i c s ])) e

-- The head is moved in the queue only, and in no other queue.
unlink_head-table : (i c : ℕ) (s : State) → (unlink_head i c s).process_table ≡ s.process_table
unlink_head-table i c s = go (is_head c (s.run_queues i))
  where
    table_of : State → ℕ → Process
    table_of t = t.process_table

    go : (b : Bool) → table_of (if b then put_queue i (queue_links s c) s else s) ≡ s.process_table
    go true = refl
    go false = refl

unlink_head-queues :
    (i c : ℕ) (s : State) (j : ℕ) → i ≢ j → (unlink_head i c s).run_queues j ≡ s.run_queues j
unlink_head-queues i c s j ne = go (is_head c (s.run_queues i))
  where
    queue_of : State → Option ℕ
    queue_of t = t.run_queues j

    go : (b : Bool) → queue_of (if b then put_queue i (queue_links s c) s else s) ≡ s.run_queues j
    go true = update_ne s.run_queues (queue_links s c) ne
    go false = refl

set_prev-back :
    (q : ℕ) (v : Option ℕ) (s : State) (k : ℕ)
    → back_links (set_prev q v s) k ≡ update (back_links s) q v k
set_prev-back q v s k = field_update s.process_table (λ x. x.prev_queue_node) q _ k

-- The two writes to neighbours, by the neighbour.
abbrev cut_prev : ℕ → State → Option ℕ → State
cut_prev c s before = elim before [ none ↦ s | some p ↦ set_next p (queue_links s c) s ]

abbrev cut_next : ℕ → State → Option ℕ → State
cut_next c s behind = elim behind [ none ↦ s | some q ↦ set_prev q (back_links s c) s ]

cut_prev-links :
    (c : ℕ) (s : State) (o : Option ℕ) (k : ℕ)
    → o ≢ some k
    → queue_links (cut_prev c s o) k ≡ queue_links s k
cut_prev-links c s none k ne = refl
cut_prev-links c s (some p) k ne = set_next_ne p (queue_links s c) s k (λ e. ne (ap some e))

cut_next-links :
    (c : ℕ) (s : State) (o : Option ℕ) (k : ℕ) → queue_links (cut_next c s o) k ≡ queue_links s k
cut_next-links c s none k = refl
cut_next-links c s (some q) k = set_prev-links q (back_links s c) s k

cut_prev-back :
    (c : ℕ) (s : State) (o : Option ℕ) (k : ℕ) → back_links (cut_prev c s o) k ≡ back_links s k
cut_prev-back c s none k = refl
cut_prev-back c s (some p) k = update_field s.process_table (λ x. x.prev_queue_node) p _ refl k

cut_next-back :
    (c : ℕ) (s : State) (o : Option ℕ) (k : ℕ)
    → o ≢ some k
    → back_links (cut_next c s o) k ≡ back_links s k
cut_next-back c s none k ne = refl
cut_next-back c s (some q) k ne =
    set_prev-back q (back_links s c) s k
    ∙ update_ne (back_links s) (back_links s c) (λ e. ne (ap some e))

cut_next-behind :
    (c : ℕ) (s : State) (o : Option ℕ) (q : ℕ)
    → o ≡ some q
    → back_links (cut_next c s o) q ≡ back_links s c
cut_next-behind c s o q e =
    ap (λ x. back_links (cut_next c s x) q) e
    ∙ set_prev-back q (back_links s c) s q
    ∙ update_self (back_links s) q (back_links s c)

-- A field that no write touches.
cut-field :
    {B : Type 0} (g : Process → B) (c : ℕ) (s : State) (k : ℕ)
    → ((x : Process) (o : Option ℕ) → g (record x { next_queue_node = o }) ≡ g x)
    → ((x : Process) (o : Option ℕ) → g (record x { prev_queue_node = o }) ≡ g x)
    → g ((unlink_next c (unlink_prev c s)).process_table k) ≡ g (s.process_table k)
cut-field g c s k keeps_next keeps_prev = behind (queue_links u c) ∙ before (back_links s c)
  where
    u : State
    u = unlink_prev c s

    before : (o : Option ℕ) → g ((cut_prev c s o).process_table k) ≡ g (s.process_table k)
    before none = refl
    before (some p) =
        update_field s.process_table g p _ (keeps_next (s.process_table p) (queue_links s c)) k

    behind : (o : Option ℕ) → g ((cut_next c u o).process_table k) ≡ g (u.process_table k)
    behind none = refl
    behind (some q) =
        update_field u.process_table g q _ (keeps_prev (u.process_table q) (back_links u c)) k

module _ (i c : ℕ) (s : State) where
  pub removed-field :
      {B : Type 0} (g : Process → B) (k : ℕ)
      → ((x : Process) (o : Option ℕ) → g (record x { next_queue_node = o }) ≡ g x)
      → ((x : Process) (o : Option ℕ) → g (record x { prev_queue_node = o }) ≡ g x)
      → g ((removed i c s).process_table k) ≡ g (s.process_table k)
  removed-field g k keeps_next keeps_prev =
      ap (λ t. g (t k)) (unlink_head-table i c (unlink_next c (unlink_prev c s)))
      ∙ cut-field g c s k keeps_next keeps_prev

  pub removed-queues : (j : ℕ) → i ≢ j → (removed i c s).run_queues j ≡ s.run_queues j
  removed-queues j ne =
      unlink_head-queues i c (unlink_next c (unlink_prev c s)) j ne
      ∙ behind (queue_links (unlink_prev c s) c)
      ∙ before (back_links s c)
    where
      queue_of : State → Option ℕ
      queue_of t = t.run_queues j

      before : (o : Option ℕ) → queue_of (cut_prev c s o) ≡ s.run_queues j
      before none = refl
      before (some p) = refl

      behind :
          (o : Option ℕ) → queue_of (cut_next c (unlink_prev c s) o) ≡ queue_of (unlink_prev c s)
      behind none = refl
      behind (some q) = refl

  pub removed-links :
      (k : ℕ) → back_links s c ≢ some k → queue_links (removed i c s) k ≡ queue_links s k
  removed-links k ne =
      ap (λ t. (t k).next_queue_node) (unlink_head-table i c (unlink_next c (unlink_prev c s)))
      ∙ cut_next-links c (unlink_prev c s) (queue_links (unlink_prev c s) c) k
      ∙ cut_prev-links c s (back_links s c) k ne

  module _ (apart : back_links s c ≢ some c) where
    pub removed-back :
        (k : ℕ) → queue_links s c ≢ some k → back_links (removed i c s) k ≡ back_links s k
    removed-back k ne =
        ap (λ t. (t k).prev_queue_node) (unlink_head-table i c (unlink_next c (unlink_prev c s)))
        ∙ cut_next-back c (unlink_prev c s) (queue_links (unlink_prev c s) c) k
            (λ e. ne (sym (cut_prev-links c s (back_links s c) c apart) ∙ e))
        ∙ cut_prev-back c s (back_links s c) k

    pub removed-behind :
        (q : ℕ) → queue_links s c ≡ some q → back_links (removed i c s) q ≡ back_links s c
    removed-behind q e =
        ap (λ t. (t q).prev_queue_node) (unlink_head-table i c (unlink_next c (unlink_prev c s)))
        ∙ cut_next-behind c (unlink_prev c s) (queue_links (unlink_prev c s) c) q
            (cut_prev-links c s (back_links s c) c apart ∙ e)
        ∙ cut_prev-back c s (back_links s c) c
