-- ===== src/Phase1/Create/Adopting.antt =====
-- fork1 of phase1b/phase1.c on a request that it grants.
use process_control.Base.{
  ℕ, ◌+◌, ◌-◌, ◌%◌, ◌<◌, if◌then◌else◌, ◌≡◌, ◌≢◌, refl, ap, sym, ◌∙◌, subst, true, false, not,
  Option, none, some, List, [], ◌∷◌, ◌++◌, length, has, update, update_self, update_ne,
  update_field,
}
use process_control.Base.Int.{ℤ, pos, negsuc, minus_one, ltb_ℤ}
use process_control.Base.Run.{done, fault, out_of_fuel, bind}
use process_control.Base.Chain.{Chain, Chain-frame}
use process_control.Base.Chain.Doubly.{Back-frame}
use process_control.Base.Probe.{probe-Found}
use process_control.Phase1.State.{
  Routine, State, max_proc, fork_in_user_mode, put_process, disable_interrupts, get_process,
}
use process_control.Phase1.State.ProcessState.{runnable}
use process_control.Phase1.Queue.{Step, ok, bad_index, no_end, queue_links, add_to_queue}
use process_control.Phase1.Queue.Removal.{back_links}
use process_control.Phase1.Queue.Invariant.{IsQueue, WellQueued}
use process_control.Phase1.Queue.Adding.{add_to_queue-WellQueued}
use process_control.Phase1.Queue.Kept.{add_to_queue-field, add_to_queue-running}
use process_control.Phase1.Dispatch.{set_state, dispatcher}
use process_control.Phase1.Dispatch.Blocking.{put_process-WellQueued}
use process_control.Phase1.Zap.{complain}
use process_control.Phase1.Family.Reaping.{sibling_links}
use process_control.Phase1.Create.{
  Request, find_slot, new_process, name_fits, enter_process, create_process, is_refused,
  check_created, fork1, push_child, adopt,
}
use process_control.Phase1.Create.Refused.{entered}
use process_control.Phase1.Create.Children.{push_child-WellQueued, push_child-Chain}

-- The slot that is found is the one of the new pid.
find_slot-pid :
    (i counter : ℕ) (s : State) → find_slot s ≡ (some i, counter) → (counter - 1) % max_proc ≡ i
unfolding find_slot
find_slot-pid i counter s slot =
    let found =
      probe-Found (λ k. (s.process_table k).is_initialized) max_proc max_proc s.pid_counter i
        (ap (λ m. m.0) slot) in
    sym (found.at_counter ∙ ap (λ m. (m.1 - 1) % max_proc) slot)

entered-WellQueued :
    (r : Request) (i counter : ℕ) (s : State) (queues : ℕ → List ℕ)
    → ((j : ℕ) → has i (queues j) ≡ false)
    → WellQueued s queues
    → WellQueued (entered r i counter s) queues
entered-WellQueued r i counter s queues unused well j h =
    IsQueue-written (queues j) (unused j) (well j h)
  where
    t : State
    t = entered r i counter s

    apart : (xs : List ℕ) (k : ℕ) → has i xs ≡ false → has k xs ≡ true → i ≢ k
    apart xs k out inside e = no (ap (λ m. has m xs) e)
      where
        no : has i xs ≡ has k xs → ⊥
        no f = cc

    IsQueue-written : (xs : List ℕ) → has i xs ≡ false → IsQueue s j xs → IsQueue t j xs
    IsQueue-written xs out q = record {
      chain =
          Chain-frame (queue_links s) (queue_links t) (s.run_queues j) xs
            (λ k inside. ap (λ x. x.next_queue_node) (other k inside)) q.chain;
      back =
          Back-frame (back_links s) (back_links t) none xs
            (λ k inside. ap (λ x. x.prev_queue_node) (other k inside)) q.back;
      distinct = q.distinct;
      own = λ k inside. ap (λ x. x.priority) (other k inside) ∙ q.own k inside;
    }
      where
        other : (k : ℕ) → has k xs ≡ true → t.process_table k ≡ s.process_table k
        other k inside = update_ne s.process_table _ (apart xs k out inside)

-- The entry is queued behind the others of its priority.
enter_process-WellQueued :
    (r : Request) (i counter k : ℕ) (s : State) (queues : ℕ → List ℕ)
    → name_fits r.name ≡ true
    → r.priority ≡ pos k
    → k < 8
    → ((j : ℕ) → has i (queues j) ≡ false)
    → length (queues k) < max_proc + 1
    → WellQueued s queues
    → (u : State) × (add_to_queue i (entered r i counter s) ≡ ok u)
      × (enter_process s.psr r i counter (record (disable_interrupts s) { pid_counter = counter })
          ≡ done (pos (counter - 1)) (record u { psr = s.psr }))
      × WellQueued (record u { psr = s.psr }) (update queues k (queues k ++ i ∷ []))
unfolding enter_process
enter_process-WellQueued r i counter k s queues fits prio h unused short well =
    let t = entered r i counter s in
    let fresh_entry = update_self s.process_table i _ in
    let (u, added, well_u) =
      add_to_queue-WellQueued i k t queues (ap (λ x. x.priority) fresh_entry ∙ prio) h
        (entered-WellQueued r i counter s queues unused well) (unused k) short
        (λ e. (ap (λ x. x.next_queue_node) fresh_entry, ap (λ x. x.prev_queue_node) fresh_entry)) in
    (
      u,
      added,
      ap
            (λ b.
              if not b
              then fault (
                  put_process i (new_process (counter - 1) r)
                    (record (disable_interrupts s) { pid_counter = counter }))
              else behind t (add_to_queue i t))
            fits
          ∙ ap (behind t) added,
      λ j l. record {
        chain = (well_u j l).chain;
        back = (well_u j l).back;
        distinct = (well_u j l).distinct;
        own = (well_u j l).own;
      },
    )
  where
    behind : State → Step → Routine ℤ
    behind t step = elim step [
      | ok u ↦ done (pos (counter - 1)) (record u { psr = s.psr })
      | bad_index ↦ fault t
      | no_end ↦ out_of_fuel t
    ]

-- A request that fork1 grants, in kernel mode and with a large enough stack, from the process that
-- runs: the new process, in the free slot that was found, is the last of the queue of its priority and
-- at the front of its parent's children; all queues are well formed, the parent is runnable, the
-- dispatcher is called, and the answer is the pid of the new process. Before, the queues are well
-- formed, none has the slot, that of the priority is no longer than the table, and the slot is none of
-- the parent's children and not the parent.
pub fork1-adopts :
    (min_stack stacksize : ℤ) (r : Request) (i counter k n : ℕ) (children : List ℕ) (s : State)
    (queues : ℕ → List ℕ)
    → (s.psr).kernel_mode ≡ true
    → ltb_ℤ stacksize min_stack ≡ false
    → find_slot s ≡ (some i, counter)
    → name_fits r.name ≡ true
    → r.priority ≡ pos k
    → k < 8
    → is_refused r ≡ false
    → s.running_process_id ≡ pos n
    → i ≢ n % max_proc
    → WellQueued s queues
    → ((j : ℕ) → has i (queues j) ≡ false)
    → length (queues k) < max_proc + 1
    → Chain (sibling_links s) (s.process_table (n % max_proc)).first_child children
    → has i children ≡ false
    → (t : State) × (fork1 min_stack r stacksize s
        ≡ bind (dispatcher t) (λ _ v. done (pos (counter - 1)) v))
      × WellQueued t (update queues k (queues k ++ i ∷ []))
      × Chain (sibling_links t) (t.process_table (n % max_proc)).first_child (i ∷ children)
      × ((t.process_table (n % max_proc)).state ≡ runnable)
unfolding fork1 create_process check_created adopt bind
fork1-adopts min_stack stacksize r i counter k n children s queues kernel stack slot fits prio h
      granted run ne well unused short chain outside =
    let q = n % max_proc in
    let (u, added, enters, well_u) =
      enter_process-WellQueued r i counter k s queues fits prio h unused short well in
    let v = record u { psr = s.psr } in
    let w = push_child q i v in
    let links : (m : ℕ) → i ≢ m → sibling_links v m ≡ sibling_links s m = λ m apart.
      add_to_queue-field (λ x. x.next_sibling) (λ x o. refl) (λ x o. refl) i (entered r i counter s)
        u added m
      ∙ ap (λ x. x.next_sibling) (update_ne s.process_table _ apart) in
    let no_sibling =
      add_to_queue-field (λ x. x.next_sibling) (λ x o. refl) (λ x o. refl) i (entered r i counter s)
        u added i
      ∙ ap (λ x. x.next_sibling) (update_self s.process_table i _) in
    let first =
      add_to_queue-field (λ x. x.first_child) (λ x o. refl) (λ x o. refl) i (entered r i counter s)
        u added q
      ∙ ap (λ x. x.first_child) (update_ne s.process_table _ ne) in
    let chain_v =
      subst (λ o. Chain (sibling_links v) o children) (sym first)
        (Chain-frame (sibling_links s) (sibling_links v) (s.process_table q).first_child children
          (λ m inside. links m (apart m inside)) chain) in
    let chain_w = push_child-Chain q i v ne children chain_v outside no_sibling in
    let x = record (w.process_table q) { state = runnable } in
    (
      set_state q runnable w,
      ap
            (λ b.
              if not b
              then complain fork_in_user_mode s
              else if ltb_ℤ stacksize min_stack
              then done (negsuc 1) s
              else bind (create_process r s) (check_created r))
            kernel
          ∙ ap (λ b. if b then done (negsuc 1) s else bind (create_process r s) (check_created r))
              stack
          ∙ ap (λ m. bind m (check_created r)) (ap made slot ∙ enters)
          ∙ ap (λ b. if b then done minus_one v else adopt (counter - 1) v) granted
          ∙ ap (adopted v)
              (ap get_process (add_to_queue-running i (entered r i counter s) u added ∙ run))
          ∙ ap
              (λ m.
                bind (dispatcher (set_state q runnable (push_child q m v)))
                  (λ _ y. done (pos (counter - 1)) y))
              (find_slot-pid i counter s slot),
      put_process-WellQueued q x w (update queues k (queues k ++ i ∷ [])) refl refl refl
          (push_child-WellQueued q i v ne (update queues k (queues k ++ i ∷ [])) well_u),
      subst (λ o. Chain (sibling_links (set_state q runnable w)) o (i ∷ children))
          (sym (update_field w.process_table (λ y. y.first_child) q x refl q))
          (Chain-frame (sibling_links w) (sibling_links (set_state q runnable w))
            (w.process_table q).first_child (i ∷ children)
            (λ m inside. update_field w.process_table (λ y. y.next_sibling) q x refl m) chain_w),
      ap (λ y. y.state) (update_self w.process_table q x),
    )
  where
    made : Option ℕ × ℕ → Routine ℤ
    made found =
        let u = record (disable_interrupts s) { pid_counter = found.1 } in
        elim found.0 [ none ↦ done minus_one u | some j ↦ enter_process s.psr r j found.1 u ]

    adopted : State → Option ℕ → Routine ℤ
    adopted v o = elim o [
      | none ↦ fault v
      | some parent ↦
          bind
            (dispatcher
              (set_state parent runnable (push_child parent ((counter - 1) % max_proc) v)))
            (λ _ t. done (pos (counter - 1)) t)
    ]

    apart : (m : ℕ) → has m children ≡ true → i ≢ m
    apart m inside e = no (ap (λ j. has j children) e)
      where
        no : has i children ≡ has m children → ⊥
        no f = cc
