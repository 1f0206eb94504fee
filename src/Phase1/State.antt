-- ===== src/Phase1/State.antt =====
-- The process table of phase1b/phase1.c, its run queues, and the calls that leave the phase.
use process_control.Base.{ℕ, Bool, true, false, Option, List, update}
use process_control.Base.Int.{ℤ, pos, index_of}
use process_control.Base.Run.{Run}

-- MAXPROC and MAXNAME of phase1.h.
abbrev pub max_proc : ℕ
max_proc = 50

abbrev pub max_name : ℕ
max_name = 50

abbrev pub zap_status : ℤ
zap_status = pos 150_000

abbrev pub join_block_status : ℤ
join_block_status = pos 20_000

-- The strings that `state` points at; `unset` is the null pointer.
pub data ProcessState : Type 0 where
  unset runnable running blocked_zap blocked_join blocked terminated removed : ProcessState

-- `struct Process`, less the fields that nothing reads. Links are indices of `processTable`,
-- `start_func` and `arg` stand for the pointers.
pub record Process : Type 0 where
  pub is_initialized : Bool
  pub name : List ℕ
  pub pid : ℕ
  pub priority : ℤ
  pub next_sibling : Option ℕ
  pub prev_sibling : Option ℕ
  pub parent : Option ℕ
  pub first_child : Option ℕ
  pub next_queue_node : Option ℕ
  pub prev_queue_node : Option ℕ
  pub zap_head : Option ℕ
  pub next_zap_node : Option ℕ
  pub i_zap : Option ℕ
  pub state : ProcessState
  pub stack : Bool
  pub status : ℤ
  pub start_func : Option ℕ
  pub arg : ℕ
  pub start_time : ℕ
  pub total_time : ℤ

-- The two bits of the processor status that the kernel reads and writes.
pub record Psr : Type 0 where
  pub kernel_mode : Bool
  pub interrupts : Bool

-- The global data, the processor status, and the time that the clock device gives.
pub record State : Type 0 where
  pub process_table : ℕ → Process
  pub run_queues : ℕ → Option ℕ
  pub running_process_id : ℤ
  pub pid_counter : ℕ
  pub psr : Psr
  pub clock : ℕ

-- The messages of `USLOSS_Console`.
pub data Text : Type 0 where
  zap_init zap_not_positive zap_self zap_missing zap_dying : Text
  bad_block_status fork_in_user_mode quit_in_user_mode quit_with_children deadlock : Text
  error_message : Text

-- The calls that leave the phase and the switches that let other processes run.
pub data Call : Type 0 where
  -- `USLOSS_ContextSwitch(old, new)`, by the slots of the two processes
  context_switch : Option ℕ → ℕ → Call
  console : Text → Call
  -- a start function with its argument
  start : Option ℕ → ℕ → Call
  testcase_main : Call
  -- `phaseN_start_service_processes()`
  start_services : ℕ → Call
  phase2_clock_handler : Call
  check_io : Call
  wait_int : Call

-- Calls are answered by a number, 0 where the source ignores the answer.
abbrev pub Routine : Type 0 → Type 0
Routine A = Run State Call ℤ A

abbrev pub put_process : ℕ → Process → State → State
put_process i p s = record s { process_table = update s.process_table i p }

abbrev pub put_queue : ℕ → Option ℕ → State → State
put_queue i q s = record s { run_queues = update s.run_queues i q }

abbrev pub disable_interrupts : State → State
disable_interrupts s = record s { psr = record (s.psr) { interrupts = false } }

abbrev pub enable_interrupts : State → State
enable_interrupts s = record s { psr = record (s.psr) { interrupts = true } }

-- `getProcess(pid)`; `none` is an address outside the table.
abbrev pub get_process : ℤ → Option ℕ
get_process pid = index_of max_proc pid

-- `getpid()`.
abbrev pub getpid : State → ℤ
getpid s = s.running_process_id
