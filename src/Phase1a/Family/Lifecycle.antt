-- ===== src/Phase1a/Family/Lifecycle.antt =====
-- The end of a process of phase1a/phase1.c: quit, and join by the parent that it switches to.
use process_control.Base.{
  ℕ, ◌+◌, ◌%◌, ◌<◌, if◌then◌else◌, ◌≡◌, ◌≢◌, refl, ap, sym, ◌∙◌, subst, true, false, not, Option,
  none, some, is_none, List, [], ◌∷◌, ◌++◌, length, has, All, arith, update_self, update_ne,
  update_field,
}
use process_control.Base.Int.{ℤ, pos, minus_two}
use process_control.Base.Run.{done, yields, fault}
use process_control.Base.Chain.{Links, Chain, Distinct, Back}
use process_control.Phase1.State.{ProcessState}
use process_control.Phase1.State.ProcessState.{running, terminated}
use process_control.Phase1.Dispatch.{is_unset}
use process_control.Phase1.Zap.{is_terminated}
use process_control.Phase1.Family.{Search, dead_child, Status, untouched, written}
use process_control.Phase1.Family.Joining.{search_children-first}
use process_control.Phase1.Family.Reaping.{reap-Chain}
use process_control.Phase1a.State.{
  Process, State, Routine, context_switch, quit_in_user_mode, quit_with_children, max_proc,
  complain, put_process, set_state, get_process, getpid,
}
use process_control.Phase1a.Family.{
  search_children, reap, join, set_terminated, take_processor, quit,
}
use process_control.Phase1
use process_control.Phase1a.Equivalence.{of_state, search_children-same, reap-same, ended_1a}

-- A process of phase 1a as one of phase 1b that is on no queue and zapped nobody.
abbrev to_process : Process → Phase1.State.Process
to_process p = record Phase1.Create.blank {
  is_initialized = p.is_initialized;
  name = p.name;
  pid = p.pid;
  priority = p.priority;
  next_sibling = p.next_sibling;
  prev_sibling = p.prev_sibling;
  parent = p.parent;
  first_child = p.first_child;
  state = p.state;
  stack = p.stack;
  status = p.status;
  start_func = p.start_func;
  arg = p.arg;
}

abbrev to_state : State → Phase1.State.State
to_state s = record {
  process_table = λ k. to_process (s.process_table k);
  run_queues = λ _. none;
  running_process_id = s.running_process_id;
  pid_counter = s.pid_counter;
  psr = s.psr;
  clock = 0;
}

abbrev pub sibling_links : State → Links
sibling_links s = λ k. (s.process_table k).next_sibling

abbrev pub sibling_back : State → Links
sibling_back s = λ k. (s.process_table k).prev_sibling

-- Alive, and with a state that can be compared.
abbrev pub IsAlive : State → ℕ → Type 0
IsAlive s k =
    (is_unset (s.process_table k).state ≡ false) × (is_terminated (s.process_table k).state ≡ false)

-- A state of the process in a slot and the processor at a pid: what quit and the switch write.
abbrev handed_over : ℕ → ℤ → ℕ → ℤ → State → State
handed_over c status q pid s = take_processor q pid (set_terminated c status s)

quit-handed_over :
    (c q : ℕ) (status switch_to : ℤ) (s : State)
    → (s.psr).kernel_mode ≡ true
    → get_process (getpid s) ≡ some c
    → (s.process_table c).first_child ≡ none
    → get_process switch_to ≡ some q
    → quit status switch_to s
      ≡ yields (context_switch none q) (handed_over c status q switch_to s) (λ _ u. done tt u)
unfolding quit
quit-handed_over c q status switch_to s kernel run childless target =
    ap (λ b. if not b then complain quit_in_user_mode s else by_slot (get_process (getpid s)))
      kernel
    ∙ ap by_slot run
    ∙ ap
        (λ o.
          if not (is_none o)
          then complain quit_with_children s
          else by_target c (get_process switch_to))
        childless
    ∙ ap (by_target c) target
  where
    by_target : ℕ → Option ℕ → Routine (Unit {0})
    by_target slot none = fault (set_terminated slot status s)
    by_target slot (some next) =
        yields (context_switch none next) (handed_over slot status next switch_to s)
          (λ _ u. done tt u)

    by_slot : Option ℕ → Routine (Unit {0})
    by_slot none = fault s
    by_slot (some slot) =
        if not (is_none (s.process_table slot).first_child)
        then complain quit_with_children s
        else by_target slot (get_process switch_to)

join-dead :
    (q c : ℕ) (s : State)
    → get_process (getpid s) ≡ some q
    → is_none (s.process_table q).first_child ≡ false
    → search_children (max_proc + 1) s.process_table (s.process_table q).first_child ≡ dead_child c
    → join s ≡ done (pos (s.process_table c).pid, written (s.process_table c).status) (reap q c s)
unfolding join ended_1a
join-dead q c s run some_child found =
    ap (λ o. elim o [ none ↦ fault s | some p ↦ body p ]) run
    ∙ ap (λ b. if b then done (minus_two, untouched) s else ended_1a q s (search q)) some_child
    ∙ ap (ended_1a q s) found
  where
    search : ℕ → Search
    search p = search_children (max_proc + 1) s.process_table (s.process_table p).first_child

    body : ℕ → Routine (ℤ × Status)
    body p =
        if is_none (s.process_table p).first_child
        then done (minus_two, untouched) s
        else ended_1a p s (search p)

module _ (c q : ℕ) (status pid : ℤ) (s : State) (ne : q ≢ c) where
  after : State
  after = handed_over c status q pid s

  after-field :
      {B : Type 0} (g : Process → B) (k : ℕ)
      → ((x : Process) (w : ℤ) → g (record x { status = w }) ≡ g x)
      → ((x : Process) (y : ProcessState) → g (record x { state = y }) ≡ g x)
      → g (after.process_table k) ≡ g (s.process_table k)
  unfolding after
  after-field g k keeps_status keeps_state =
      let t1 = put_process c (record (s.process_table c) { status = status }) s in
      let t2 = set_state c terminated t1 in
      update_field t2.process_table g q _ (keeps_state (t2.process_table q) running) k
      ∙ update_field t1.process_table g c _ (keeps_state (t1.process_table c) terminated) k
      ∙ update_field s.process_table g c _ (keeps_status (s.process_table c) status) k

  after-other : (k : ℕ) → q ≢ k → c ≢ k → after.process_table k ≡ s.process_table k
  unfolding after
  after-other k nq nc =
      let t1 = put_process c (record (s.process_table c) { status = status }) s in
      let t2 = set_state c terminated t1 in
      update_ne t2.process_table _ nq
      ∙ update_ne t1.process_table _ nc
      ∙ update_ne s.process_table _ nc

  after-ended :
      after.process_table c ≡ record (s.process_table c) { status = status; state = terminated }
  unfolding after
  after-ended =
      let t1 = put_process c (record (s.process_table c) { status = status }) s in
      let t2 = set_state c terminated t1 in
      update_ne t2.process_table _ ne
      ∙ update_self t1.process_table c _
      ∙ ap {A = Process} (λ x. record x { state = terminated }) (update_self s.process_table c _)

  after-IsAlive :
      (xs : List ℕ)
      → has q xs ≡ false
      → has c xs ≡ false
      → All (IsAlive s) xs
      → All (IsAlive after) xs
  after-IsAlive [] nq nc a = tt
  after-IsAlive (x ∷ xs) nq nc a =
      let same = after-other x (ground (arith, nq)) (ground (arith, nc)) in
      (
        (ap (λ p. is_unset p.state) same ∙ (a.0).0, ap (λ p. is_terminated p.state) same ∙ (a.0).1),
        after-IsAlive xs (ground arith) (ground arith) a.1,
      )

-- A node of a chain without repetitions is not among the nodes before it, and a number that is not
-- on a list is not on its front.
not_before : (c : ℕ) (pre post : List ℕ) → Distinct (pre ++ c ∷ post) → has c pre ≡ false
not_before c [] post d = refl
not_before c (p ∷ ps) post d = ground (arith, not_before c ps post d.1, ne ps d.0)
  where
    ne : (qs : List ℕ) → has p (qs ++ c ∷ post) ≡ false → c ≢ p
    ne [] e = ground (arith, e)
    ne (q ∷ qs) e = ne qs (ground arith)

not_in_front : (q : ℕ) (pre post : List ℕ) → has q (pre ++ post) ≡ false → has q pre ≡ false
not_in_front q [] post e = refl
not_in_front q (p ∷ ps) post e = ground (arith, not_in_front q ps post (ground arith))

not_middle : (q c : ℕ) (pre post : List ℕ) → has q (pre ++ c ∷ post) ≡ false → q ≢ c
not_middle q c [] post e = ground arith
not_middle q c (p ∷ ps) post e = not_middle q c ps post (ground arith)

-- A child that ends and switches to its parent is what the parent's join finds: it answers the
-- child's pid and the status of its quit, the child leaves the list of children, in which the others
-- keep their order, and its slot is free. The child has no children of its own and runs in kernel
-- mode; the children of its parent are a doubly linked list of at most MAXPROC distinct processes
-- without the parent, and those before this one are alive.
pub quit-join :
    (child_pid parent_pid : ℕ) (pre post : List ℕ) (status : ℤ) (s : State)
    → (s.psr).kernel_mode ≡ true
    → s.running_process_id ≡ pos child_pid
    → (s.process_table (child_pid % max_proc)).pid ≡ child_pid
    → (s.process_table (child_pid % max_proc)).first_child ≡ none
    → Chain
        (sibling_links s)
        (s.process_table (parent_pid % max_proc)).first_child
        (pre ++ (child_pid % max_proc) ∷ post)
    → Back (sibling_back s) none (pre ++ (child_pid % max_proc) ∷ post)
    → Distinct (pre ++ (child_pid % max_proc) ∷ post)
    → has (parent_pid % max_proc) (pre ++ (child_pid % max_proc) ∷ post) ≡ false
    → length (pre ++ (child_pid % max_proc) ∷ post) < max_proc + 1
    → All (IsAlive s) pre
    → (t u : State) × (quit status (pos parent_pid) s
        ≡ yields (context_switch none (parent_pid % max_proc)) t (λ _ x. done tt x))
      × (join t ≡ done (pos child_pid, written status) u)
      × Chain (sibling_links u) (u.process_table (parent_pid % max_proc)).first_child (pre ++ post)
      × ((u.process_table (child_pid % max_proc)).is_initialized ≡ false)
unfolding after
quit-join child_pid parent_pid pre post status s kernel run own childless chain back d out short
      alive =
    let c = child_pid % max_proc in
    let q = parent_pid % max_proc in
    let ne = not_middle q c pre post out in
    let t = after c q status (pos parent_pid) s ne in
    let links : sibling_links t ≡ sibling_links s = λ i k.
      after-field c q status (pos parent_pid) s ne (λ p. p.next_sibling) k (λ x w. refl)
        (λ x y. refl) i in
    let backs : sibling_back t ≡ sibling_back s = λ i k.
      after-field c q status (pos parent_pid) s ne (λ p. p.prev_sibling) k (λ x w. refl)
        (λ x y. refl) i in
    let head =
      after-field c q status (pos parent_pid) s ne (λ p. p.first_child) q (λ x w. refl)
        (λ x y. refl) in
    let chain' : Chain (sibling_links t) (t.process_table q).first_child (pre ++ c ∷ post) =
      subst (λ l. Chain l (t.process_table q).first_child (pre ++ c ∷ post)) (sym links)
        (subst (λ h. Chain (sibling_links s) h (pre ++ c ∷ post)) (sym head) chain) in
    let back' = subst (λ l. Back l none (pre ++ c ∷ post)) (sym backs) back in
    let ended = after-ended c q status (pos parent_pid) s ne in
    let pid_kept : (t.process_table c).pid ≡ child_pid = ap (λ p. p.pid) ended ∙ own in
    let found =
      search_children-same (max_proc + 1) (λ k. to_process (t.process_table k))
        (t.process_table q).first_child
      ∙ search_children-first (max_proc + 1) (λ k. to_process (t.process_table k))
          (t.process_table q).first_child pre c post chain' short
          (after-IsAlive c q status (pos parent_pid) s ne pre (not_in_front q pre (c ∷ post) out)
            (not_before c pre post d) alive)
          (ap (λ p. is_unset p.state) ended) (ap (λ p. is_terminated p.state) ended) in
    let (v, reaped, behind, free) =
      reap-Chain q c pre post (to_state t) chain' back' d (λ e. ne (sym e))
        (ap (λ n. n % max_proc) pid_kept) in
    let same = sym (reap-same q c (to_state t)) ∙ ap of_state reaped in
    (
      t,
      reap q c t,
      quit-handed_over c q status (pos parent_pid) s kernel (ap get_process run) childless refl,
      join-dead q c t refl (some_child (sibling_links t) pre (t.process_table q).first_child chain')
            found
          ∙ ap (λ p. done (pos p, written (t.process_table c).status) (reap q c t)) pid_kept
          ∙ ap (λ p. done (pos child_pid, written p) (reap q c t)) (ap (λ p. p.status) ended),
      subst
          (λ x.
            Chain (λ k. (x.process_table k).next_sibling) (x.process_table q).first_child
              (pre ++ post))
          (sym same) behind,
      ap (λ x. (x.process_table c).is_initialized) same ∙ ap (λ p. p.is_initialized) free,
    )
  where
    some_child :
        (l : Links) (xs : List ℕ) (head : Option ℕ)
        → Chain l head (xs ++ (child_pid % max_proc) ∷ post)
        → is_none head ≡ false
    some_child l [] head k = ap is_none k.0
    some_child l (x ∷ xs) head k = ap is_none k.0
