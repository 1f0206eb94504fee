-- ===== src/Phase1a/Create.antt =====
-- createProcess, findOpenProcessTableSlot and fork1 of phase1a/phase1.c.
use process_control.Base.{
  ℕ, ◌-◌, ◌%◌, ltb, if◌then◌else◌, Bool, true, ◌||◌, not, Option, none, some, is_none, length,
}
use process_control.Base.Int.{ℤ, pos, negsuc, minus_one, minus_two, ltb_ℤ}
use process_control.Base.Run.{done, fault, bind}
use process_control.Base.Probe.{probe}
use process_control.Phase1.State.{Psr}
use process_control.Phase1.State.ProcessState.{runnable}
use process_control.Phase1.Create.{Request, name_fits, name_of}
use process_control.Phase1a.State.{
  Process, Routine, State, fork_in_user_mode, max_proc, max_name, blank, complain, put_process,
  disable_interrupts, get_process, getpid,
}

unfoldable pub find_slot : State → Option ℕ × ℕ
unfolding probe
find_slot s = probe (λ i. (s.process_table i).is_initialized) max_proc max_proc s.pid_counter

-- The entry before `strcpy` fills its name.
abbrev pub new_process : ℕ → Request → Process
new_process pid r = record blank {
  is_initialized = true;
  pid = pid;
  priority = r.priority;
  state = runnable;
  stack = true;
  start_func = r.start_func;
  arg = r.arg;
}

-- The processor status is restored; the pid is `pidCounter - 1`.
unfoldable pub enter_process : Psr → Request → ℕ → ℕ → State → Routine ℤ
enter_process old_psr r slot counter s =
    let p = new_process (counter - 1) r in
    if not (name_fits r.name)
    then fault (put_process slot p s)
    else done (pos (counter - 1))
        (record (put_process slot (record p { name = name_of r.name }) s) { psr = old_psr })

-- Without a free slot the interrupts stay off.
unfoldable pub create_process : Request → State → Routine ℤ
unfolding enter_process find_slot
create_process r s =
    let (slot, counter) = find_slot s in
    let t = record (disable_interrupts s) { pid_counter = counter } in
    elim slot [ none ↦ done minus_one t | some i ↦ enter_process s.psr r i counter t ]

-- The checks that fork1 makes once the process is created.
abbrev pub is_refused : Request → Bool
is_refused r =
    ltb_ℤ (pos 7) r.priority
    || ltb_ℤ r.priority (pos 1)
    || is_none r.start_func
    || is_none r.name
    || ltb max_name (length (name_of r.name))

-- The child goes to the front of its parent's children.
unfoldable pub push_child : ℕ → ℕ → State → State
push_child parent child s =
    let t = put_process child (record (s.process_table child) { parent = some parent }) s in
    elim (t.process_table parent).first_child [
      | none ↦ put_process parent (record (t.process_table parent) { first_child = some child }) t
      | some first ↦
          let u =
            put_process first (record (t.process_table first) { prev_sibling = some child }) t in
          let v =
            put_process child (record (u.process_table child) { next_sibling = some first }) u in
          put_process parent (record (v.process_table parent) { first_child = some child }) v
    ]

-- From `int newChildSlot = pid % MAXPROC` on.
unfoldable pub adopt : ℕ → State → Routine ℤ
unfolding push_child
adopt pid s = elim (get_process (getpid s)) [
  | none ↦ fault s
  | some parent ↦ done (pos pid) (push_child parent (pid % max_proc) s)
]

-- What fork1 makes of the answer of createProcess.
unfoldable pub check_created : Request → ℤ → State → Routine ℤ
unfolding adopt
check_created r (pos pid) s = if is_refused r then done minus_one s else adopt pid s
check_created r (negsuc n) s = done minus_one s

-- `min_stack` is USLOSS_MIN_STACK.
unfoldable pub fork1 : ℤ → Request → ℤ → State → Routine ℤ
unfolding create_process check_created bind
fork1 min_stack r stacksize s =
    if not (s.psr).kernel_mode
    then complain fork_in_user_mode s
    else if ltb_ℤ stacksize min_stack
    then done minus_two s
    else bind (create_process r s) (check_created r)
