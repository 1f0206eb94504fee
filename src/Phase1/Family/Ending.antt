-- ===== src/Phase1/Family/Ending.antt =====
-- quit of phase1b/phase1.c for a process that nobody zaps.
use process_control.Base.{
  ℕ, ◌+◌, ◌%◌, ◌<◌, if◌then◌else◌, ◌≡◌, refl, ap, ◌∙◌, true, false, not, Option, none, some,
  is_none, List, [], ◌∷◌, ◌++◌, length, has, update, update_self, update_field, field_update,
}
use process_control.Base.Int.{ℤ, pos}
use process_control.Base.Run.{fault}
use process_control.Phase1.State.{
  Process, ProcessState, State, Routine, quit_in_user_mode, quit_with_children, max_proc,
  put_process, get_process, getpid,
}
use process_control.Phase1.State.ProcessState.{runnable, terminated}
use process_control.Phase1.Queue.{queue_links, remove_node}
use process_control.Phase1.Queue.Kept.{add_to_queue-field}
use process_control.Phase1.Queue.Removal.{back_links}
use process_control.Phase1.Queue.Removed.{removed, removed-field}
use process_control.Phase1.Queue.Invariant.{WellQueued, remove_node-ok, removed-WellQueued}
use process_control.Phase1.Dispatch.{set_state, after_step, dispatcher, unblock_proc}
use process_control.Phase1.Dispatch.Blocking.{put_process-WellQueued, unblock_proc-queued}
use process_control.Phase1.Zap.{complain}
use process_control.Phase1.Family.{set_terminated, wake_zappers, leave, quit}

-- What reads neither the status nor the state nor a link of a queue is as before, once the process
-- has ended and left its queue.
module _ (i c : ℕ) (status : ℤ) (s : State) where
  abbrev pub ended : State
  ended = removed i c (set_terminated c status s)

  ended-field :
      {B : Type 0} (g : Process → B) (k : ℕ)
      → ((x : Process) (w : ℤ) → g (record x { status = w }) ≡ g x)
      → ((x : Process) (y : ProcessState) → g (record x { state = y }) ≡ g x)
      → ((x : Process) (o : Option ℕ) → g (record x { next_queue_node = o }) ≡ g x)
      → ((x : Process) (o : Option ℕ) → g (record x { prev_queue_node = o }) ≡ g x)
      → g (ended.process_table k) ≡ g (s.process_table k)
  ended-field g k keeps_status keeps_state keeps_next keeps_prev =
      let t1 = put_process c (record (s.process_table c) { status = status }) s in
      removed-field i c (set_terminated c status s) g k keeps_next keeps_prev
      ∙ update_field t1.process_table g c _ (keeps_state (t1.process_table c) terminated) k
      ∙ update_field s.process_table g c _ (keeps_status (s.process_table c) status) k

  ended-state :
      (k : ℕ)
      → (ended.process_table k).state ≡ update (λ j. (s.process_table j).state) c terminated k
  ended-state k =
      let t1 = put_process c (record (s.process_table c) { status = status }) s in
      removed-field i c (set_terminated c status s) (λ x. x.state) k (λ x o. refl) (λ x o. refl)
      ∙ field_update t1.process_table (λ x. x.state) c
          (record (t1.process_table c) { state = terminated }) k
      ∙ (λ r.
          update
            (λ j.
              update_field s.process_table (λ x. x.state) c
                (record (s.process_table c) { status = status }) refl j r)
            c terminated k)

  ended-status : (ended.process_table c).status ≡ status
  ended-status =
      let t1 = put_process c (record (s.process_table c) { status = status }) s in
      removed-field i c (set_terminated c status s) (λ x. x.status) c (λ x o. refl) (λ x o. refl)
      ∙ update_field t1.process_table (λ x. x.status) c
          (record (t1.process_table c) { state = terminated }) refl c
      ∙ ap (λ x. x.status) (update_self s.process_table c _)

quit-leave :
    (c : ℕ) (status : ℤ) (s : State)
    → (s.psr).kernel_mode ≡ true
    → get_process (getpid s) ≡ some c
    → (s.process_table c).first_child ≡ none
    → quit status s
      ≡ after_step (set_terminated c status s) (remove_node c (set_terminated c status s)) (leave c)
unfolding quit
quit-leave c status s kernel run childless =
    ap (λ b. if not b then complain quit_in_user_mode s else by_slot (get_process (getpid s)))
      kernel
    ∙ ap by_slot run
    ∙ ap
        (λ o.
          if not (is_none o)
          then complain quit_with_children s
          else after_step (set_terminated c status s) (remove_node c (set_terminated c status s))
              (leave c))
        childless
  where
    by_slot : Option ℕ → Routine (Unit {0})
    by_slot none = fault s
    by_slot (some slot) =
        if not (is_none (s.process_table slot).first_child)
        then complain quit_with_children s
        else let t = set_terminated slot status s in after_step t (remove_node slot t) (leave slot)

leave-parent :
    (c parent : ℕ) (t : State)
    → (t.process_table c).parent ≡ some parent
    → (t.process_table c).zap_head ≡ none
    → leave c t ≡ unblock_proc (pos (t.process_table parent).pid) t
unfolding leave wake_zappers
leave-parent c parent t has_parent nobody =
    ap
      (λ o. elim o [
        | none ↦ fault t
        | some p ↦
            after_step t (wake_zappers (max_proc + 1) (t.process_table c).zap_head t)
              (unblock_proc (pos (t.process_table p).pid))
      ])
      has_parent
    ∙ ap
        (λ z.
          after_step t (wake_zappers (max_proc + 1) z t)
            (unblock_proc (pos (t.process_table parent).pid)))
        nobody

-- A process that nobody zaps and that has no children quits in kernel mode. It leaves the queue of
-- its priority, in which the others keep their order; its state is that it ended, with the status of
-- the quit. Its parent, whatever it waits for, is runnable and the last of the queue of its own
-- priority; no other state changes. All queues are well formed, and the dispatcher is called. Before,
-- the queues are well formed, and the parent is not on the one of its priority, which is no longer than
-- the table; if that queue is empty, the parent has no links.
pub quit-unblocks :
    (pid parent_pid i j : ℕ) (pre post : List ℕ) (status : ℤ) (s : State) (queues : ℕ → List ℕ)
    → (s.psr).kernel_mode ≡ true
    → s.running_process_id ≡ pos pid
    → (s.process_table (pid % max_proc)).first_child ≡ none
    → (s.process_table (pid % max_proc)).zap_head ≡ none
    → (s.process_table (pid % max_proc)).parent ≡ some (parent_pid % max_proc)
    → (s.process_table (parent_pid % max_proc)).pid ≡ parent_pid
    → (s.process_table (parent_pid % max_proc)).priority ≡ pos j
    → i < 8
    → j < 8
    → WellQueued s queues
    → queues i ≡ pre ++ (pid % max_proc) ∷ post
    → has (parent_pid % max_proc) (update queues i (pre ++ post) j) ≡ false
    → length (update queues i (pre ++ post) j) < max_proc + 1
    → (update queues i (pre ++ post) j ≡ []
        → (queue_links (ended i (pid % max_proc) status s) (parent_pid % max_proc) ≡ none)
          × (back_links (ended i (pid % max_proc) status s) (parent_pid % max_proc) ≡ none))
    → let c = pid % max_proc in
      let q = parent_pid % max_proc in
      let left = update queues i (pre ++ post) in
      (t : State) × (quit status s ≡ dispatcher t)
      × WellQueued t (update left j (left j ++ q ∷ []))
      × ((k : ℕ)
          → (t.process_table k).state
            ≡ update (update (λ m. (s.process_table m).state) c terminated) q runnable k)
      × ((t.process_table c).status ≡ status)
quit-unblocks pid parent_pid i j pre post status s queues kernel run childless nobody has_parent own
      prio within within_j well here fresh short clear =
    let c = pid % max_proc in
    let q = parent_pid % max_proc in
    let t0 = set_terminated c status s in
    let t1 = put_process c (record (s.process_table c) { status = status }) s in
    let u = ended i c status s in
    let well_t =
      put_process-WellQueued c (record (t1.process_table c) { state = terminated }) t1 queues refl
        refl refl
        (put_process-WellQueued c (record (s.process_table c) { status = status }) s queues refl
          refl refl well) in
    let well_u = removed-WellQueued i c pre post t0 queues within well_t here in
    let kept : (g : Process → Option ℕ) → Type 0 =
      λ g. g (u.process_table c) ≡ g (s.process_table c) in
    let parent_kept : kept (λ x. x.parent) =
      ended-field i c status s (λ x. x.parent) c (λ x w. refl) (λ x w. refl) (λ x w. refl)
        (λ x w. refl) in
    let zap_kept : kept (λ x. x.zap_head) =
      ended-field i c status s (λ x. x.zap_head) c (λ x w. refl) (λ x w. refl) (λ x w. refl)
        (λ x w. refl) in
    let pid_kept =
      ended-field i c status s (λ x. x.pid) q (λ x w. refl) (λ x w. refl) (λ x w. refl)
        (λ x w. refl)
      ∙ own in
    let prio_kept =
      ended-field i c status s (λ x. x.priority) q (λ x w. refl) (λ x w. refl) (λ x w. refl)
        (λ x w. refl)
      ∙ prio in
    let (t, added, calls, well_q) =
      unblock_proc-queued parent_pid j u (update queues i (pre ++ post)) prio_kept within_j well_u
        fresh short clear in
    (
      t,
      quit-leave c status s kernel (ap get_process run) childless
          ∙ ap (λ r. after_step t0 r (leave c))
              (remove_node-ok i c pre post t0 queues within well_t here)
          ∙ leave-parent c q u (parent_kept ∙ has_parent) (zap_kept ∙ nobody)
          ∙ ap (λ n. unblock_proc (pos n) u) pid_kept
          ∙ calls,
      well_q,
      λ k.
          add_to_queue-field (λ x. x.state) (λ x o. refl) (λ x o. refl) q (set_state q runnable u) t
            added k
          ∙ field_update u.process_table (λ x. x.state) q
              (record (u.process_table q) { state = runnable }) k
          ∙ (λ r. update (λ m. ended-state i c status s m r) q runnable k),
      add_to_queue-field (λ x. x.status) (λ x o. refl) (λ x o. refl) q (set_state q runnable u) t
            added c
          ∙ update_field u.process_table (λ x. x.status) q
              (record (u.process_table q) { state = runnable }) refl c
          ∙ ended-status i c status s,
    )
