-- ===== src/Phase1/Dump.antt =====
-- What dumpProcesses and dumpQueue of phase1b/phase1.c print, and readCurStartTime.
use process_control.Base.{
  ℕ, zero, suc, ◌+◌, ◌==◌, if◌then◌else◌, Bool, true, false, not, ◌||◌, Option, none, some, List,
  [], ◌∷◌,
}
use process_control.Base.Int.{ℤ}
use process_control.Phase1.State.{Process, ProcessState, State, max_proc, get_process, getpid}
use process_control.Phase1.State.ProcessState.{blocked}
use process_control.Phase1.Dispatch.{is_unset}
use process_control.Phase1.Zap.{is_terminated}

-- `readCurStartTime()`; `none` is an address outside the table.
abbrev pub read_cur_start_time : State → Option ℕ
read_cur_start_time s = elim (get_process (getpid s)) [
  | none ↦ none
  | some slot ↦ some (s.process_table slot).start_time
]

-- A line of dumpProcesses; the number behind the state is printed for some states only.
pub record Row : Type 0 where
  pub pid : ℕ
  pub parent_pid : ℕ
  pub name : List ℕ
  pub priority : ℤ
  pub state : ProcessState
  pub code : Option ℤ

-- `strcmp(state, "Blocked") == 0`.
abbrev is_blocked : ProcessState → Bool
is_blocked blocked = true
is_blocked _ = false

-- The process of pid 1 has no parent, and its line says 0; any other without a parent is read
-- through a null pointer, as a state without a string is.
abbrev pub row_parent : (ℕ → Process) → Process → Option ℕ
row_parent table p =
    if p.pid == 1 then some 0 else elim p.parent [ none ↦ none | some i ↦ some (table i).pid ]

abbrev pub row_of : Process → ℕ → Row
row_of p parent_pid = record {
  pid = p.pid;
  parent_pid = parent_pid;
  name = p.name;
  priority = p.priority;
  state = p.state;
  code = if is_terminated p.state || is_blocked p.state then some p.status else none;
}

abbrev put_in_front : {A : Type 0} → A → Option (List A) → Option (List A)
put_in_front x none = none
put_in_front x (some xs) = some (x ∷ xs)

-- The slots `i`, `i + 1`, … with `rounds` left.
unfoldable pub dump_rows : ℕ → (ℕ → Process) → ℕ → Option (List Row)
dump_rows zero table i = some []
dump_rows (suc rounds) table i =
    let rest = dump_rows rounds table (i + 1) in
    if not (table i).is_initialized
    then rest
    else if is_unset (table i).state
    then none
    else elim (row_parent table (table i)) [
      | none ↦ none
      | some parent_pid ↦ put_in_front (row_of (table i) parent_pid) rest
    ]

unfoldable pub dump_processes : State → Option (List Row)
unfolding dump_rows
dump_processes s = dump_rows max_proc s.process_table 0

-- The names from a process on; `none`: the queue has no end.
unfoldable pub names_from : ℕ → (ℕ → Process) → Option ℕ → Option (List (List ℕ))
names_from zero table current = none
names_from (suc fuel) table none = some []
names_from (suc fuel) table (some p) =
    let rest = names_from fuel table (table p).next_queue_node in put_in_front (table p).name rest

-- The queues `i`, `i + 1`, … with `rounds` left.
unfoldable pub dump_queues : ℕ → State → ℕ → Option (List (List (List ℕ)))
unfolding names_from
dump_queues zero s i = some []
dump_queues (suc rounds) s i =
    let rest = dump_queues rounds s (i + 1) in
    elim (names_from (max_proc + 1) s.process_table (s.run_queues i)) [
      | none ↦ none
      | some names ↦ put_in_front names rest
    ]

unfoldable pub dump_queue : State → Option (List (List (List ℕ)))
unfolding dump_queues
dump_queue s = dump_queues 8 s 0
