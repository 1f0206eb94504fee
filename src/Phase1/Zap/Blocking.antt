-- ===== src/Phase1/Zap/Blocking.antt =====
-- zap of phase1b/phase1.c for a target that is alive.
use process_control.Base.{
  ℕ, ◌%◌, ◌<◌, ◌==◌, if◌then◌else◌, ◌≡◌, ◌≢◌, refl, ap, sym, ◌∙◌, Bool, true, false, ◌&&◌, not,
  Option, none, some, List, ◌∷◌, ◌++◌, arith, update, update_self, update_field, eq→==,
}
use process_control.Base.Int.{ℤ, pos, eqb_ℤ, ltb_ℤ}
use process_control.Base.Run.{done, fault, bind}
use process_control.Phase1.State.{
  State, Routine, max_proc, zap_status, zap_init, zap_not_positive, zap_self, zap_missing,
  zap_dying, put_process, disable_interrupts, get_process, getpid,
}
use process_control.Phase1.State.ProcessState.{blocked_zap}
use process_control.Phase1.Queue.Invariant.{WellQueued}
use process_control.Phase1.Dispatch.{is_unset, block_me, dispatcher}
use process_control.Phase1.Dispatch.Blocking.{
  put_process-WellQueued, suspended, suspended-field, suspended-state, block_me-suspended,
  suspended-WellQueued,
}
use process_control.Phase1.Zap.{is_terminated, complain, push_zapper, note_target, zap_target, zap}

-- The writes of push_zapper, by the list of the target.
abbrev pushed : ℕ → ℕ → State → Option ℕ → State
pushed target me s head = elim head [
  | none ↦ put_process target (record (s.process_table target) { zap_head = some me }) s
  | some old ↦
      let t = put_process target (record (s.process_table target) { zap_head = some me }) s in
      put_process me (record (t.process_table me) { next_zap_node = some old }) t
]

-- The link behind a zapper: the list of before, or what the link was.
abbrev pub link_of : Option ℕ → Option ℕ → Option ℕ
link_of none old_link = old_link
link_of (some old) old_link = some old

module _ (target me : ℕ) (s : State) (ne : me ≢ target) where
  abbrev with_zapper : State
  with_zapper = put_process target (record (s.process_table target) { zap_head = some me }) s

  with_zapper-WellQueued :
      (queues : ℕ → List ℕ) → WellQueued s queues → WellQueued with_zapper queues
  with_zapper-WellQueued queues well =
      put_process-WellQueued target (record (s.process_table target) { zap_head = some me }) s
        queues refl refl refl well

  pushed-WellQueued :
      (o : Option ℕ) (queues : ℕ → List ℕ)
      → WellQueued s queues
      → WellQueued (pushed target me s o) queues
  pushed-WellQueued none queues well = with_zapper-WellQueued queues well
  pushed-WellQueued (some old) queues well =
      put_process-WellQueued me (record (with_zapper.process_table me) { next_zap_node = some old })
        with_zapper queues refl refl refl (with_zapper-WellQueued queues well)

  with_zapper-head : (with_zapper.process_table target).zap_head ≡ some me
  with_zapper-head = ap (λ x. x.zap_head) (update_self s.process_table target _)

  pushed-head : (o : Option ℕ) → ((pushed target me s o).process_table target).zap_head ≡ some me
  pushed-head none = with_zapper-head
  pushed-head (some old) =
      update_field with_zapper.process_table (λ x. x.zap_head) me
        (record (with_zapper.process_table me) { next_zap_node = some old }) refl target
      ∙ with_zapper-head

  pushed-link :
      (o : Option ℕ)
      → ((pushed target me s o).process_table me).next_zap_node
        ≡ link_of o (s.process_table me).next_zap_node
  pushed-link none =
      update_field s.process_table (λ x. x.next_zap_node) target
        (record (s.process_table target) { zap_head = some me }) refl me
  pushed-link (some old) = ap (λ x. x.next_zap_node) (update_self with_zapper.process_table me _)

  -- What zap writes before it blocks.
  abbrev zapping : State
  zapping = note_target target me (push_zapper target me s)

  zapping-WellQueued : (queues : ℕ → List ℕ) → WellQueued s queues → WellQueued zapping queues
  zapping-WellQueued queues well =
      let t = push_zapper target me s in
      put_process-WellQueued me (record (t.process_table me) { i_zap = some target }) t queues refl
        refl refl (pushed-WellQueued (s.process_table target).zap_head queues well)

  zapping-running : zapping.running_process_id ≡ s.running_process_id
  zapping-running = go (s.process_table target).zap_head
    where
      running_of : State → ℤ
      running_of t = t.running_process_id

      go : (o : Option ℕ) → running_of (pushed target me s o) ≡ s.running_process_id
      go none = refl
      go (some old) = refl

  zapping-head : (zapping.process_table target).zap_head ≡ some me
  zapping-head =
      let t = push_zapper target me s in
      update_field t.process_table (λ x. x.zap_head) me
        (record (t.process_table me) { i_zap = some target }) refl target
      ∙ pushed-head (s.process_table target).zap_head

  zapping-link :
      (zapping.process_table me).next_zap_node
      ≡ link_of (s.process_table target).zap_head (s.process_table me).next_zap_node
  zapping-link =
      let t = push_zapper target me s in
      update_field t.process_table (λ x. x.next_zap_node) me
        (record (t.process_table me) { i_zap = some target }) refl me
      ∙ pushed-link (s.process_table target).zap_head

-- The checks pass.
zap-zap_target :
    (pid me_pid : ℕ) (s : State)
    → s.running_process_id ≡ pos me_pid
    → 1 < pid
    → pid ≢ me_pid
    → zap (pos pid) s ≡ zap_target s.psr pid (disable_interrupts s)
unfolding zap
zap-zap_target pid me_pid s run above ne =
    let t = disable_interrupts s in
    ap (λ b. if b then complain zap_init t else positive (ltb_ℤ (pos 0) (pos pid)))
      (not_init pid above)
    ∙ ap positive (is_positive pid above)
    ∙ ap (λ b. if b then complain zap_self t else zap_target s.psr pid t)
        (ap (eqb_ℤ (pos pid)) run ∙ other pid me_pid ne)
  where
    positive : Bool → Routine (Unit {0})
    positive b =
        if not b
        then complain zap_not_positive (disable_interrupts s)
        else if eqb_ℤ (pos pid) (getpid s)
        then complain zap_self (disable_interrupts s)
        else zap_target s.psr pid (disable_interrupts s)

    not_init : (n : ℕ) → 1 < n → eqb_ℤ (pos n) (pos 1) ≡ false
    not_init n h = ground arith

    is_positive : (n : ℕ) → 1 < n → ltb_ℤ (pos 0) (pos n) ≡ true
    is_positive n h = ground arith

    other : (n m : ℕ) → n ≢ m → eqb_ℤ (pos n) (pos m) ≡ false
    other n m h = ground arith

zap_target-block_me :
    (pid me_pid : ℕ) (s : State)
    → s.running_process_id ≡ pos me_pid
    → (s.process_table (pid % max_proc)).is_initialized ≡ true
    → (s.process_table (pid % max_proc)).pid ≡ pid
    → is_unset (s.process_table (pid % max_proc)).state ≡ false
    → is_terminated (s.process_table (pid % max_proc)).state ≡ false
    → zap_target s.psr pid (disable_interrupts s)
      ≡ bind
          (block_me zap_status (
            note_target
              (pid % max_proc)
              (me_pid % max_proc)
              (push_zapper (pid % max_proc) (me_pid % max_proc) (disable_interrupts s))))
          (λ _ t. done tt (record t { psr = s.psr }))
unfolding zap_target bind
zap_target-block_me pid me_pid s run used own set alive =
    ap (λ b. found (b && (pid == (s.process_table (pid % max_proc)).pid))) used
    ∙ ap found (eq→== pid (s.process_table (pid % max_proc)).pid (sym own))
    ∙ ap has_state set
    ∙ ap has_ended alive
    ∙ ap by_slot (ap get_process run)
  where
    t : State
    t = disable_interrupts s

    by_slot : Option ℕ → Routine (Unit {0})
    by_slot none = fault t
    by_slot (some me) =
        bind
          (block_me zap_status
            (note_target (pid % max_proc) me (push_zapper (pid % max_proc) me t)))
          (λ _ u. done tt (record u { psr = s.psr }))

    has_ended : Bool → Routine (Unit {0})
    has_ended b = if b then complain zap_dying t else by_slot (get_process (getpid t))

    has_state : Bool → Routine (Unit {0})
    has_state b =
        if b then fault t else has_ended (is_terminated (s.process_table (pid % max_proc)).state)

    found : Bool → Routine (Unit {0})
    found b =
        if not b
        then complain zap_missing t
        else has_state (is_unset (s.process_table (pid % max_proc)).state)

-- A process that zaps another one, which is alive and not init, blocks: it leaves the queue of its
-- priority, in well-formed queues, which are well formed behind it, its state says that it waits for a
-- zap, and the dispatcher is called; resumed, it has the processor status of before. It is at the head
-- of the list of those that zap the target, and leads to those that were on the list; if there was
-- none, its link is what it was.
pub zap-block_me :
    (pid me_pid i : ℕ) (pre post : List ℕ) (s : State) (queues : ℕ → List ℕ)
    → s.running_process_id ≡ pos me_pid
    → 1 < pid
    → pid ≢ me_pid
    → me_pid % max_proc ≢ pid % max_proc
    → (s.process_table (pid % max_proc)).is_initialized ≡ true
    → (s.process_table (pid % max_proc)).pid ≡ pid
    → is_unset (s.process_table (pid % max_proc)).state ≡ false
    → is_terminated (s.process_table (pid % max_proc)).state ≡ false
    → i < 8
    → WellQueued s queues
    → queues i ≡ pre ++ (me_pid % max_proc) ∷ post
    → let target = pid % max_proc in
      let me = me_pid % max_proc in
      (t : State) × (zap (pos pid) s
        ≡ bind (dispatcher t) (λ _ u. done tt (record u { psr = s.psr })))
      × WellQueued t (update queues i (pre ++ post))
      × ((t.process_table me).state ≡ blocked_zap)
      × ((t.process_table target).zap_head ≡ some me)
      × ((t.process_table me).next_zap_node
          ≡ link_of (s.process_table target).zap_head (s.process_table me).next_zap_node)
unfolding bind
zap-block_me pid me_pid i pre post s queues run above ne apart used own set alive within well here =
    let target = pid % max_proc in
    let me = me_pid % max_proc in
    let u = disable_interrupts s in
    let well_u : WellQueued u queues = λ j h. record {
      chain = (well j h).chain;
      back = (well j h).back;
      distinct = (well j h).distinct;
      own = (well j h).own;
    } in
    let z = zapping target me u apart in
    let well_z = zapping-WellQueued target me u apart queues well_u in
    let run_z = zapping-running target me u apart ∙ run in
    (
      suspended i me zap_status z,
      zap-zap_target pid me_pid s run above ne
          ∙ zap_target-block_me pid me_pid s run used own set alive
          ∙ ap (λ r. bind r (λ _ v. done tt (record v { psr = s.psr })))
              (block_me-suspended me_pid i pre post zap_status z queues run_z within well_z here
                refl),
      suspended-WellQueued me_pid i pre post zap_status z queues run_z within well_z here refl,
      suspended-state i me zap_status z,
      suspended-field i me zap_status z (λ x. x.zap_head) target (λ x w. refl) (λ x w. refl)
            (λ x w. refl) (λ x w. refl)
          ∙ zapping-head target me u apart,
      suspended-field i me zap_status z (λ x. x.next_zap_node) me (λ x w. refl) (λ x w. refl)
            (λ x w. refl) (λ x w. refl)
          ∙ zapping-link target me u apart,
    )
