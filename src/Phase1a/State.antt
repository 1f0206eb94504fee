-- ===== src/Phase1a/State.antt =====
-- The process table of phase1a/phase1.c and the calls that leave the phase.
use process_control.Base.{ℕ, Bool, false, Option, none, List, [], update}
use process_control.Base.Int.{ℤ, pos, index_of}
use process_control.Base.Run.{Run, yields, halted}
use process_control.Phase1.State.{ProcessState, Psr}
use process_control.Phase1.State.ProcessState.{unset}

-- MAXPROC and MAXNAME of phase1.h.
abbrev pub max_proc : ℕ
max_proc = 50

abbrev pub max_name : ℕ
max_name = 50

-- `struct Process`, less the fields that nothing reads. The strings of `state` and the processor
-- status are those of phase 1b.
pub record Process : Type 0 where
  pub is_initialized : Bool
  pub name : List ℕ
  pub pid : ℕ
  pub priority : ℤ
  pub next_sibling : Option ℕ
  pub prev_sibling : Option ℕ
  pub parent : Option ℕ
  pub first_child : Option ℕ
  pub state : ProcessState
  pub stack : Bool
  pub status : ℤ
  pub start_func : Option ℕ
  pub arg : ℕ

pub record State : Type 0 where
  pub process_table : ℕ → Process
  pub running_process_id : ℤ
  pub pid_counter : ℕ
  pub psr : Psr

-- The messages of `USLOSS_Console`.
pub data Text : Type 0 where
  fork_in_user_mode quit_in_user_mode quit_with_children deadlock : Text
  error_message testcase_returned init_switches : Text

pub data Call : Type 0 where
  -- `USLOSS_ContextSwitch(old, new)`, by the slots of the two processes
  context_switch : Option ℕ → ℕ → Call
  console : Text → Call
  -- a start function with its argument
  start : Option ℕ → ℕ → Call
  testcase_main : Call
  -- `phaseN_start_service_processes()`
  start_services : ℕ → Call
  check_io : Call
  wait_int : Call

abbrev pub Routine : Type 0 → Type 0
Routine A = Run State Call ℤ A

abbrev pub put_process : ℕ → Process → State → State
put_process i p s = record s { process_table = update s.process_table i p }

abbrev pub disable_interrupts : State → State
disable_interrupts s = record s { psr = record (s.psr) { interrupts = false } }

-- `getProcess(pid)`; `none` is an address outside the table.
abbrev pub get_process : ℤ → Option ℕ
get_process pid = index_of max_proc pid

-- `getpid()`.
abbrev pub getpid : State → ℤ
getpid s = s.running_process_id

abbrev pub set_state : ℕ → ProcessState → State → State
set_state i x s = put_process i (record (s.process_table i) { state = x }) s

-- `struct Process blank = {};`
abbrev pub blank : Process
blank = record {
  is_initialized = false;
  name = [];
  pid = 0;
  priority = pos 0;
  next_sibling = none;
  prev_sibling = none;
  parent = none;
  first_child = none;
  state = unset;
  stack = false;
  status = pos 0;
  start_func = none;
  arg = 0;
}

-- A message, and `USLOSS_Halt(1)`.
abbrev pub complain : {A : Type 0} → Text → State → Routine A
complain text s = yields (console text) s (λ _ t. halted (pos 1) t)
