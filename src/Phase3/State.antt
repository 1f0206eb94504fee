-- ===== src/Phase3/State.antt =====
-- The shadow process table and the semaphores of phase3/phase3.c, and the calls of lower phases.
use process_control.Base.{ℕ, Option, update}
use process_control.Base.Int.{ℤ}
use process_control.Base.Run.{Run}

abbrev pub max_proc : ℕ
max_proc = 50

-- MAXSEMS of phase3.h.
abbrev pub max_sems : ℕ
max_sems = 200

-- `struct Process`: what the trampoline starts.
pub record Shadow : Type 0 where
  pub pid : ℕ
  pub start_func : Option ℕ
  pub arg : ℤ

-- `struct Semaphore`.
pub record Semaphore : Type 0 where
  pub sem_id : ℕ
  pub mbox_id : ℤ
  pub value : ℤ

pub record State : Type 0 where
  pub shadow_process_table : ℕ → Shadow
  pub semaphore_table : ℕ → Semaphore
  pub pid_counter : ℕ
  pub sem_counter : ℕ

-- The calls of the lower phases. A call of join is answered by its result and its status, any
-- other by a result only.
pub data Call : Type 0 where
  -- name, argument, stack size and priority; the start function is `tramp`
  fork1 : ℤ → ℤ → ℤ → ℤ → Call
  join : Call
  quit : ℤ → Call
  mbox_create : ℕ → ℕ → Call
  mbox_send mbox_recv : ℤ → Call
  current_time readtime getpid : Call
  -- `USLOSS_PsrSet(USLOSS_PSR_CURRENT_INT)`
  user_mode : Call
  -- a start function with its argument, and the system call that ends the process
  start : ℕ → ℤ → Call
  terminate : ℤ → Call

pub record Answer : Type 0 where
  pub result : ℤ
  pub status : ℤ

abbrev pub Routine : Type 0 → Type 0
Routine A = Run State Call Answer A

abbrev pub put_semaphore : ℕ → Semaphore → State → State
put_semaphore i x s = record s { semaphore_table = update s.semaphore_table i x }
