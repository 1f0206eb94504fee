-- ===== src/Phase1/Dispatch/Blocking.antt =====
-- blockMe and unblockProc of phase1b/phase1.c on the run queues.
use process_control.Base.{
  ℕ, ◌+◌, ◌%◌, ◌<◌, if◌then◌else◌, ◌≡◌, refl, ap, ◌∙◌, Bool, true, false, not, Option, none, some,
  List, [], ◌∷◌, ◌++◌, length, has, update, update_self, update_field, field_update,
}
use process_control.Base.Int.{ℤ, pos, eqb_ℤ, ltb_ℤ}
use process_control.Base.Run.{yields, halted, fault}
use process_control.Phase1.State.{
  Process, ProcessState, State, max_proc, zap_status, join_block_status, console, bad_block_status,
  put_process, get_process,
}
use process_control.Phase1.State.ProcessState.{runnable, blocked_zap, blocked_join, blocked}
use process_control.Phase1.Queue.Kept.{add_to_queue-field}
use process_control.Phase1.Queue.{ok, queue_links, remove_node, add_to_queue}
use process_control.Phase1.Queue.Removal.{back_links}
use process_control.Phase1.Queue.Removed.{removed, removed-field}
use process_control.Phase1.Queue.Invariant.{
  WellQueued, IsQueue-frame, remove_node-ok, removed-WellQueued,
}
use process_control.Phase1.Queue.Adding.{add_to_queue-WellQueued}
use process_control.Phase1.Dispatch.{
  set_state, after_step, dispatcher, suspend, block_me, unblock_proc,
}

-- A write to a process that spares its links and its priority spares the queues.
pub put_process-WellQueued :
    (slot : ℕ) (x : Process) (s : State) (queues : ℕ → List ℕ)
    → x.next_queue_node ≡ (s.process_table slot).next_queue_node
    → x.prev_queue_node ≡ (s.process_table slot).prev_queue_node
    → x.priority ≡ (s.process_table slot).priority
    → WellQueued s queues
    → WellQueued (put_process slot x s) queues
put_process-WellQueued slot x s queues next prev prio well i h =
    IsQueue-frame s (put_process slot x s) i (queues i) refl
      (λ k inside. update_field s.process_table (λ p. p.next_queue_node) slot x next k)
      (λ k inside. update_field s.process_table (λ p. p.prev_queue_node) slot x prev k)
      (λ k. update_field s.process_table (λ p. p.priority) slot x prio k) (well i h)

-- How a process is blocked, by the reason.
abbrev pub blocked_as : ℤ → ProcessState
blocked_as block_status =
    if eqb_ℤ block_status zap_status
    then blocked_zap
    else if eqb_ℤ block_status join_block_status
    then blocked_join
    else blocked

-- Only a process that is blocked for neither reason notes its status.
abbrev noted_if : Bool → Bool → ℤ → Process → Process
noted_if zap join block_status p =
    if zap then p else if join then p else record p { status = block_status }

abbrev noted : ℤ → Process → Process
noted block_status =
    noted_if (eqb_ℤ block_status zap_status) (eqb_ℤ block_status join_block_status) block_status

block_me-suspend :
    (block_status : ℤ) (s : State)
    → ltb_ℤ (pos 10) block_status ≡ true
    → block_me block_status s ≡ suspend (blocked_as block_status) (noted block_status) s
unfolding block_me
block_me-suspend block_status s =
    go (eqb_ℤ block_status zap_status) (eqb_ℤ block_status join_block_status)
      (ltb_ℤ (pos 10) block_status)
  where
    go :
        (zap join high : Bool)
        → high ≡ true
        → (if zap
            then suspend blocked_zap (λ p. p) s
            else if join
            then suspend blocked_join (λ p. p) s
            else if not high
            then yields (console bad_block_status) s (λ _ t. halted (pos 1) t)
            else suspend blocked (λ p. record p { status = block_status }) s)
          ≡ suspend
              (if zap then blocked_zap else if join then blocked_join else blocked)
              (noted_if zap join block_status)
              s
    go true join high e = refl
    go false true high e = refl
    go false false true e = refl
    go false false false e = cc

noted-field :
    {B : Type 0} (g : Process → B) (zap join : Bool) (block_status : ℤ) (p : Process)
    → ((x : Process) (w : ℤ) → g (record x { status = w }) ≡ g x)
    → g (noted_if zap join block_status p) ≡ g p
noted-field g true join block_status p keeps = refl
noted-field g false true block_status p keeps = refl
noted-field g false false block_status p keeps = keeps p block_status

-- The running process blocked and off its queue.
abbrev pub suspended : ℕ → ℕ → ℤ → State → State
suspended i c block_status s = removed i c (
    put_process c
      (noted block_status (record (s.process_table c) { state = blocked_as block_status })) s)

module _ (i c : ℕ) (block_status : ℤ) (s : State) where
  blocked_one : Process
  blocked_one = record (s.process_table c) { state = blocked_as block_status }

  -- What reads neither the status nor the state nor a link of a queue is as before.
  pub suspended-field :
      {B : Type 0} (g : Process → B) (k : ℕ)
      → ((x : Process) (w : ℤ) → g (record x { status = w }) ≡ g x)
      → ((x : Process) (y : ProcessState) → g (record x { state = y }) ≡ g x)
      → ((x : Process) (o : Option ℕ) → g (record x { next_queue_node = o }) ≡ g x)
      → ((x : Process) (o : Option ℕ) → g (record x { prev_queue_node = o }) ≡ g x)
      → g ((suspended i c block_status s).process_table k) ≡ g (s.process_table k)
  unfolding blocked_one
  suspended-field g k keeps_status keeps_state keeps_next keeps_prev =
      removed-field i c (put_process c (noted block_status blocked_one) s) g k keeps_next keeps_prev
      ∙ update_field s.process_table g c (noted block_status blocked_one)
          (noted-field g (eqb_ℤ block_status zap_status) (eqb_ℤ block_status join_block_status)
              block_status blocked_one keeps_status
            ∙ keeps_state (s.process_table c) (blocked_as block_status))
          k

  pub suspended-state :
      ((suspended i c block_status s).process_table c).state ≡ blocked_as block_status
  unfolding blocked_one
  suspended-state =
      removed-field i c (put_process c (noted block_status blocked_one) s) (λ y. y.state) c
        (λ y o. refl) (λ y o. refl)
      ∙ ap (λ y. y.state) (update_self s.process_table c (noted block_status blocked_one))
      ∙ noted-field (λ y. y.state) (eqb_ℤ block_status zap_status)
          (eqb_ℤ block_status join_block_status) block_status blocked_one (λ y w. refl)

module _ (pid i : ℕ) (pre post : List ℕ) (block_status : ℤ) (s : State) (queues : ℕ → List ℕ)
    (run : s.running_process_id ≡ pos pid) (within : i < 8) (well : WellQueued s queues)
    (here : queues i ≡ pre ++ (pid % max_proc) ∷ post)
    (high : ltb_ℤ (pos 10) block_status ≡ true) where
  noting : State
  noting =
      put_process (pid % max_proc)
        (noted block_status
          (record (s.process_table (pid % max_proc)) { state = blocked_as block_status }))
        s

  noting-WellQueued : WellQueued noting queues
  unfolding noting
  noting-WellQueued =
      let c = pid % max_proc in
      let zap = eqb_ℤ block_status zap_status in
      let join = eqb_ℤ block_status join_block_status in
      let p = record (s.process_table c) { state = blocked_as block_status } in
      put_process-WellQueued c (noted block_status p) s queues
        (noted-field (λ y. y.next_queue_node) zap join block_status p (λ y w. refl))
        (noted-field (λ y. y.prev_queue_node) zap join block_status p (λ y w. refl))
        (noted-field (λ y. y.priority) zap join block_status p (λ y w. refl)) well

  pub block_me-suspended :
      block_me block_status s ≡ dispatcher (suspended i (pid % max_proc) block_status s)
  unfolding suspend noting
  block_me-suspended =
      block_me-suspend block_status s high
      ∙ ap
          (λ o. elim o [
            | none ↦ fault s
            | some slot ↦
                let v =
                  put_process slot
                    (noted block_status
                      (record (s.process_table slot) { state = blocked_as block_status }))
                    s in
                after_step v (remove_node slot v) dispatcher
          ])
          (ap get_process run)
      ∙ ap (λ r. after_step noting r dispatcher)
          (remove_node-ok i (pid % max_proc) pre post noting queues within noting-WellQueued here)

  pub suspended-WellQueued :
      WellQueued (suspended i (pid % max_proc) block_status s) (update queues i (pre ++ post))
  unfolding noting
  suspended-WellQueued =
      removed-WellQueued i (pid % max_proc) pre post noting queues within noting-WellQueued here

  -- The running process, on the queue of its priority in well-formed queues, is blocked by blockMe: it
  -- leaves the queue, in which the others keep their order, all queues are well formed behind it, its
  -- state says why it is blocked, and the dispatcher is called. The status is above 10.
  pub block_me-WellQueued :
      (t : State) × (block_me block_status s ≡ dispatcher t)
      × WellQueued t (update queues i (pre ++ post))
      × ((t.process_table (pid % max_proc)).state ≡ blocked_as block_status)
  block_me-WellQueued = (
    suspended i (pid % max_proc) block_status s,
    block_me-suspended,
    suspended-WellQueued,
    suspended-state i (pid % max_proc) block_status s,
  )

-- unblockProc up to its call of the dispatcher.
pub unblock_proc-queued :
    (pid i : ℕ) (s : State) (queues : ℕ → List ℕ)
    → (s.process_table (pid % max_proc)).priority ≡ pos i
    → i < 8
    → WellQueued s queues
    → has (pid % max_proc) (queues i) ≡ false
    → length (queues i) < max_proc + 1
    → (queues i ≡ []
        → (queue_links s (pid % max_proc) ≡ none) × (back_links s (pid % max_proc) ≡ none))
    → (t : State) × (add_to_queue (pid % max_proc) (set_state (pid % max_proc) runnable s) ≡ ok t)
      × (unblock_proc (pos pid) s ≡ dispatcher t)
      × WellQueued t (update queues i (queues i ++ (pid % max_proc) ∷ []))
unfolding unblock_proc
unblock_proc-queued pid i s queues prio within well fresh short clear =
    let c = pid % max_proc in
    let x = record (s.process_table c) { state = runnable } in
    let u = set_state c runnable s in
    let link = update_field s.process_table (λ y. y.next_queue_node) c x refl c in
    let back = update_field s.process_table (λ y. y.prev_queue_node) c x refl c in
    let (t, added, well_t) =
      add_to_queue-WellQueued c i u queues
        (update_field s.process_table (λ y. y.priority) c x refl c ∙ prio) within
        (put_process-WellQueued c x s queues refl refl refl well) fresh short
        (λ e. (link ∙ (clear e).0, back ∙ (clear e).1)) in
    (t, added, ap (λ r. after_step u r dispatcher) added, well_t)

-- unblockProc makes a process runnable, whatever it was before, and no other; it puts the process
-- behind the others of its priority, with all queues well formed behind it, and calls the dispatcher.
-- The queues are well formed, the process is not on the one of its priority, which is no longer than
-- the table, and has no links of its own if that queue is empty.
pub unblock_proc-WellQueued :
    (pid i : ℕ) (s : State) (queues : ℕ → List ℕ)
    → (s.process_table (pid % max_proc)).priority ≡ pos i
    → i < 8
    → WellQueued s queues
    → has (pid % max_proc) (queues i) ≡ false
    → length (queues i) < max_proc + 1
    → (queues i ≡ []
        → (queue_links s (pid % max_proc) ≡ none) × (back_links s (pid % max_proc) ≡ none))
    → (t : State) × (unblock_proc (pos pid) s ≡ dispatcher t)
      × WellQueued t (update queues i (queues i ++ (pid % max_proc) ∷ []))
      × ((k : ℕ)
          → (t.process_table k).state
            ≡ update (λ j. (s.process_table j).state) (pid % max_proc) runnable k)
unblock_proc-WellQueued pid i s queues prio within well fresh short clear =
    let c = pid % max_proc in
    let u = set_state c runnable s in
    let (t, added, calls, well_t) =
      unblock_proc-queued pid i s queues prio within well fresh short clear in
    (
      t,
      calls,
      well_t,
      λ k.
          add_to_queue-field (λ x. x.state) (λ x o. refl) (λ x o. refl) c u t added k
          ∙ field_update s.process_table (λ x. x.state) c
              (record (s.process_table c) { state = runnable }) k,
    )
