-- ===== src/Phase2/Mailbox/Release/Wakes.antt =====
-- What MboxRelease of phase2/phase2.c leaves of a mailbox, and whom it wakes.
use process_control.Base.{
  ℕ, zero, suc, ◌+◌, ◌%◌, ◌≤◌, ◌<◌, ◌≡◌, ◌∙◌, ap, refl, sym, subst, true, false, none, some, List,
  [], ◌∷◌, ◌++◌, map, arith, update_self, length, has, Bool-cases, ◌⊎◌, inl, inr,
}
use process_control.Base.Int.{ℤ, pos}
use process_control.Base.Chain.{Chain, Chain-frame}
use process_control.Base.Run.{Run, done, settle, calls}
use process_control.Phase2.State.{
  Call, Mb, Process, State, max_mbox, max_proc, max_slots, put_mb, put_message, unblock_proc,
}
use process_control.Phase2.Queue.{consumer_links, mail_links, producer_links}
use process_control.Phase2.Queue.Fifo.{HasMail}
use process_control.Phase2.Queue.Waiters.{HasConsumers, HasProducers}
use process_control.Phase2.Slots.Search.{in_use}
use process_control.Phase2.Mailbox.Release.{
  free_mail, mbox_release, next_consumer, next_producer, wake_consumers, wake_producers,
  mark_released,
}
use native.Mathlib.Nat.{mod-eq_of_lt}

-- The loop over the messages.
record Freed (s t : State) (b : ℕ) (xs : List ℕ) : Type 0 where
  mailbox : t.mb_table b ≡ record (s.mb_table b) { mail_slot_queue_head = none }
  freed : (i : ℕ) → has i xs ≡ true → in_use t i ≡ false
  others : (i : ℕ) → has i xs ≡ false → t.message_slots i ≡ s.message_slots i
  processes : t.shadow_process_table ≡ s.shadow_process_table

-- The head message is freed and the head moves on.
abbrev free_head : ℕ → ℕ → State → State
free_head b m s =
    let t = put_message m (record (s.message_slots m) { is_initialized = false }) s in
    put_mb b (record (t.mb_table b) { mail_slot_queue_head = (t.message_slots m).next_message }) t

free_mail-Freed :
    (fuel b : ℕ) (s : State) (xs : List ℕ)
    → Chain (mail_links s) (s.mb_table b).mail_slot_queue_head xs
    → length xs < fuel
    → (t : State) × (free_mail fuel b s ≡ some t) × Freed s t b xs
unfolding free_mail
free_mail-Freed zero b s xs c h = absurd (omega arith)
free_mail-Freed (suc fuel) b s [] c h = (
  s,
  simp (c, free_mail),
  record { mailbox = ground (arith, c); freed = λ i k. cc; others = λ i k. refl; processes = refl },
)
free_mail-Freed (suc fuel) b s (x ∷ xs) c h =
    let s' = free_head b x s in
    let (t, run, f) =
      free_mail-Freed fuel b s' xs
        (subst (λ k. Chain (mail_links s') k xs) (head-free_head b x s)
          (Chain-frame (mail_links s) (mail_links s') _ xs (λ i k. ground arith) c.1))
        (omega arith) in
    (
      t,
      simp (c.0, free_mail) run,
      record {
        mailbox =
            f.mailbox
            ∙ ap (λ (m : Mb). record m { mail_slot_queue_head = none })
                (update_self s.mb_table b _);
        freed = λ i k. freed_here i k (Bool-cases (has i xs)) f;
        others = λ i k. f.others i (ground arith) ∙ ground arith;
        processes = f.processes;
      },
    )
  where
    freed_here :
        {t : State} (i : ℕ)
        → has i (x ∷ xs) ≡ true
        → (has i xs ≡ true) ⊎ (has i xs ≡ false)
        → Freed (free_head b x s) t b xs
        → in_use t i ≡ false
    freed_here i k (inl later) f = f.freed i later
    freed_here i k (inr here) f = ap (λ m. m.is_initialized) (f.others i here) ∙ ground arith

    head-free_head :
        (b x : ℕ) (s : State) → mail_links s x ≡ ((free_head b x s).mb_table b).mail_slot_queue_head
    head-free_head b x s = ground arith

module _ (env : Call → State → Unit {0} × State) (b : ℕ) (table : ℕ → Process) where
  -- Who is woken stays away from the mailbox and from the shadow table until this process goes on.
  abbrev pub Spares : Type 0
  Spares =
      (e : Call) (s : State)
      → ((env e s).1.mb_table b ≡ s.mb_table b)
        × ((env e s).1.shadow_process_table ≡ s.shadow_process_table)

  abbrev pub wake : ℕ → Call
  wake i = unblock_proc (table i).pid

  -- A loop of wake-ups called `es`, returned 0 and left the mailbox as `mb`.
  pub record Woke (r : Run State Call (Unit {0}) ℤ) (es : List Call) (mb : Mb) : Type 0 where
    pub order : calls env r ≡ es
    pub final : State
    pub ends : settle env r ≡ done (pos 0) final
    pub left : final.mb_table b ≡ mb

  -- The head of the producer queue moves on.
  abbrev pass_producer : ℕ → State → State
  pass_producer y s =
      put_mb b
        (record (s.mb_table b) {
          producer_queue_head = (s.shadow_process_table y).next_producer_node;
        })
        s

  next_producer_lem :
      (y : ℕ) (s : State)
      → (s.mb_table b).producer_queue_head ≡ some y
      → next_producer b s ≡ some (pass_producer y s)
  unfolding next_producer
  next_producer_lem y s e = simp (e, next_producer)

  wake_producers-Woke :
      (fuel : ℕ) (s : State) (ys : List ℕ)
      → Spares
      → s.shadow_process_table ≡ table
      → Chain (λ i. (table i).next_producer_node) (s.mb_table b).producer_queue_head ys
      → length ys < fuel
      → Woke
          (wake_producers fuel b s)
          (map wake ys)
          (record (s.mb_table b) { producer_queue_head = none })
  unfolding wake_producers calls settle
  wake_producers-Woke zero s ys sp same c h = absurd (omega arith)
  wake_producers-Woke (suc fuel) s [] sp same c h = record {
    order = simp (c, wake_producers);
    final = s;
    ends = simp (c, wake_producers);
    left = ground (arith, c);
  }
  wake_producers-Woke (suc fuel) s (y ∷ ys) sp same c h =
      let s' = (env (wake y) s).1 in
      let sp' = sp (wake y) s in
      let same' : s'.shadow_process_table ≡ table = sp'.1 ∙ same in
      let pass = next_producer_lem y s' (ap (λ (m : Mb). m.producer_queue_head) sp'.0 ∙ c.0) in
      let head : ((pass_producer y s').mb_table b).producer_queue_head
          ≡ (table y).next_producer_node =
        ap (λ (m : Mb). m.producer_queue_head) (update_self s'.mb_table b _)
        ∙ ap (λ (p : ℕ → Process). (p y).next_producer_node) same' in
      let rest =
        wake_producers-Woke fuel (pass_producer y s') ys sp same'
          (subst (λ k. Chain (λ i. (table i).next_producer_node) k ys) (sym head) c.1)
          (omega arith) in
      let name : unblock_proc (s.shadow_process_table y).pid ≡ wake y =
        ap (λ (p : ℕ → Process). unblock_proc (p y).pid) same in
      record {
        order = simp (c.0, wake_producers, name, pass) (ap (◌∷◌ (wake y)) rest.order);
        final = rest.final;
        ends = simp (c.0, wake_producers, name) (rw (pass, settle) rest.ends);
        left =
            rest.left
            ∙ ap (λ (m : Mb). record m { producer_queue_head = none }) (update_self s'.mb_table b _)
            ∙ ap (λ (m : Mb). record m { producer_queue_head = none }) sp'.0;
      }

  -- The head of the consumer queue moves on.
  abbrev pass_consumer : ℕ → State → State
  pass_consumer x s =
      put_mb b
        (record (s.mb_table b) {
          consumer_queue_head = (s.shadow_process_table x).next_consumer_node;
        })
        s

  next_consumer_lem :
      (x : ℕ) (s : State)
      → (s.mb_table b).consumer_queue_head ≡ some x
      → next_consumer b s ≡ some (pass_consumer x s)
  unfolding next_consumer
  next_consumer_lem x s e = simp (e, next_consumer)

  -- What is left of a mailbox when nobody waits any more.
  abbrev deserted : Mb → Mb
  deserted m = record m { consumer_queue_head = none; producer_queue_head = none }

  wake_consumers-Woke :
      (fuel : ℕ) (s : State) (xs ys : List ℕ)
      → Spares
      → s.shadow_process_table ≡ table
      → Chain (λ i. (table i).next_consumer_node) (s.mb_table b).consumer_queue_head xs
      → Chain (λ i. (table i).next_producer_node) (s.mb_table b).producer_queue_head ys
      → length xs < fuel
      → length ys ≤ max_proc
      → Woke (wake_consumers fuel b s) (map wake xs ++ map wake ys) (deserted (s.mb_table b))
  unfolding wake_consumers calls settle
  wake_consumers-Woke zero s xs ys sp same c d h k = absurd (omega arith)
  wake_consumers-Woke (suc fuel) s [] ys sp same c d h k =
      let rest = wake_producers-Woke (max_proc + 1) s ys sp same d (omega arith) in
      record {
        order = simp (c, wake_consumers) rest.order;
        final = rest.final;
        ends = simp (c, wake_consumers) rest.ends;
        left = rest.left ∙ ground (arith, c);
      }
  wake_consumers-Woke (suc fuel) s (x ∷ xs) ys sp same c d h k =
      let s' = (env (wake x) s).1 in
      let sp' = sp (wake x) s in
      let same' : s'.shadow_process_table ≡ table = sp'.1 ∙ same in
      let pass = next_consumer_lem x s' (ap (λ (m : Mb). m.consumer_queue_head) sp'.0 ∙ c.0) in
      let kept : (pass_consumer x s').mb_table b ≡ record (s'.mb_table b) {
        consumer_queue_head = (s'.shadow_process_table x).next_consumer_node;
      } =
        update_self s'.mb_table b _ in
      let head : ((pass_consumer x s').mb_table b).consumer_queue_head
          ≡ (table x).next_consumer_node =
        ap (λ (m : Mb). m.consumer_queue_head) kept
        ∙ ap (λ (p : ℕ → Process). (p x).next_consumer_node) same' in
      let others : ((pass_consumer x s').mb_table b).producer_queue_head
          ≡ (s.mb_table b).producer_queue_head =
        ap (λ (m : Mb). m.producer_queue_head) kept
        ∙ ap (λ (m : Mb). m.producer_queue_head) sp'.0 in
      let rest =
        wake_consumers-Woke fuel (pass_consumer x s') xs ys sp same'
          (subst (λ k. Chain (λ i. (table i).next_consumer_node) k xs) (sym head) c.1)
          (subst (λ k. Chain (λ i. (table i).next_producer_node) k ys) (sym others) d) (omega arith)
          k in
      let name : unblock_proc (s.shadow_process_table x).pid ≡ wake x =
        ap (λ (p : ℕ → Process). unblock_proc (p x).pid) same in
      record {
        order = simp (c.0, wake_consumers, name, pass) (ap (◌∷◌ (wake x)) rest.order);
        final = rest.final;
        ends = simp (c.0, wake_consumers, name) (rw (pass, settle) rest.ends);
        left = rest.left ∙ ap (λ (m : Mb). deserted m) kept ∙ ap (λ (m : Mb). deserted m) sp'.0;
      }

-- The mailbox once MboxRelease is through: closed, released, with three empty queues.
abbrev pub closed : Mb → Mb
closed m = record m {
  is_initialized = false;
  released = true;
  mail_slot_queue_head = none;
  consumer_queue_head = none;
  producer_queue_head = none;
}

mbox_release-wake_consumers :
    (b : ℕ) (s t : State)
    → b < max_mbox
    → free_mail (max_slots + 1) b (mark_released b s) ≡ some t
    → mbox_release (pos b) s ≡ wake_consumers (max_proc + 1) b t
unfolding mbox_release
mbox_release-wake_consumers b s t range run =
    let slot : b % max_mbox ≡ b = mod-eq_of_lt range in simp (slot, mbox_release, run)

module _ (env : Call → State → Unit {0} × State) (b : ℕ) (s : State) {ms xs ys : List ℕ}
    (sp : Spares env b s.shadow_process_table) (range : b < max_mbox) (mail : HasMail s b ms)
    (consumers : HasConsumers s b xs) (producers : HasProducers s b ys) where
  abbrev pub woken : ℕ → Call
  woken i = wake env b s.shadow_process_table i

  -- MboxRelease wakes every process that waits at the mailbox, the consumers in their order and then
  -- the producers in theirs, returns 0, and leaves the mailbox closed with its queues empty, if the
  -- woken processes do not touch the mailbox and the shadow table before it goes on.
  pub mbox_release-wakes :
      (calls env (mbox_release (pos b) s) ≡ map woken xs ++ map woken ys)
      × ((t : State) × (settle env (mbox_release (pos b) s) ≡ done (pos 0) t)
          × (t.mb_table b ≡ closed (s.mb_table b)))
  mbox_release-wakes =
      let start = mark_released b s in
      let marked : start.mb_table b
          ≡ record (s.mb_table b) { is_initialized = false; released = true } =
        update_self s.mb_table b _ in
      let (t, run, f) =
        free_mail-Freed (max_slots + 1) b start ms
          (subst (λ (m : Mb). Chain (mail_links s) m.mail_slot_queue_head ms) (sym marked)
            mail.chain)
          (omega (arith, mail.short)) in
      let left = f.mailbox ∙ ap (λ (m : Mb). record m { mail_slot_queue_head = none }) marked in
      let w =
        wake_consumers-Woke env b s.shadow_process_table (max_proc + 1) t xs ys sp f.processes
          (subst (λ (m : Mb). Chain (consumer_links s) m.consumer_queue_head xs) (sym left)
            consumers.chain)
          (subst (λ (m : Mb). Chain (producer_links s) m.producer_queue_head ys) (sym left)
            producers.chain)
          (omega (arith, consumers.short)) producers.short in
      let whole = mbox_release-wake_consumers b s t range run in
      (
        rw whole w.order,
        (
          w.final,
          rw whole w.ends,
          w.left
              ∙ ap (λ (m : Mb). record m { consumer_queue_head = none; producer_queue_head = none })
                  left,
        ),
      )
