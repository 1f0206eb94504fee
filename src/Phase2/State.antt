-- ===== src/Phase2/State.antt =====
-- The tables of phase2/phase2.c and the calls of phase 1 that it makes.
use process_control.Base.{ℕ, Bool, Option, List, update}
use process_control.Base.Int.{ℤ}
use process_control.Base.Run.{Run}

-- MAXPROC of phase1.h; MAXMBOX and MAXSLOTS of phase2.h.
abbrev pub max_proc : ℕ
max_proc = 50

abbrev pub max_mbox : ℕ
max_mbox = 100

abbrev pub max_slots : ℕ
max_slots = 2500

abbrev pub max_syscalls : ℕ
max_syscalls = 50

-- `sizeof(struct Message)` on a 64-bit machine, asked of `malloc` by a receiver.
abbrev pub sizeof_message : ℕ
sizeof_message = 40

-- `struct Message`: `message` is the copied payload, links are indices of `messageSlots`.
pub record Message : Type 0 where
  pub id : ℕ
  pub is_initialized : Bool
  pub message_size_limit : ℤ
  pub message : Option (List ℕ)
  pub next_message : Option ℕ
  pub prev_message : Option ℕ

-- `struct Process` of the shadow table: links are indices of `shadowProcessTable`.
pub record Process : Type 0 where
  pub pid : ℕ
  pub message : Option Message
  pub next_consumer_node : Option ℕ
  pub next_producer_node : Option ℕ
  pub blocked : Bool

-- `struct MB`, less its `name`, which is never set.
pub record Mb : Type 0 where
  pub is_initialized : Bool
  pub id : ℕ
  pub mail_slot_limit : ℤ
  pub message_size_limit : ℤ
  pub mail_slots_available : ℤ
  pub mail_slot_queue_head : Option ℕ
  pub consumer_queue_head : Option ℕ
  pub producer_queue_head : Option ℕ
  pub released : Bool

-- The interrupt handlers and system calls that the vectors hold.
pub data Handler : Type 0 where
  no_handler clock_handler term_handler syscall_handler : Handler

pub data SystemCall : Type 0 where
  unset null_sys : SystemCall

-- The three entries of `USLOSS_IntVec` that are set here, and `systemCallVec`.
pub record Vectors : Type 0 where
  pub clock_int : Handler
  pub term_int : Handler
  pub syscall_int : Handler
  pub system_call_vec : ℕ → SystemCall

-- The static data of the file.
pub record State : Type 0 where
  pub message_id_counter : ℕ
  pub last_message : ℕ
  pub shadow_process_table : ℕ → Process
  pub mb_table : ℕ → Mb
  pub message_slots : ℕ → Message
  pub vectors : Vectors

-- What the file prints.
pub data Text : Type 0 where
  invalid_syscall : ℤ → Text
  unimplemented_syscall : ℤ → Text
  wrong_unit : Text

-- The calls of phase 1 that may run other processes before they return.
pub data Call : Type 0 where
  -- `blockMe(status)` of the process that runs
  block_me : ℕ → Call
  -- `unblockProc(pid)`
  unblock_proc : ℕ → Call
  -- `USLOSS_Console`
  console : Text → Call

abbrev pub Routine : Type 0 → Type 0
Routine A = Run State Call (Unit {0}) A

-- A pointer argument: its value as a number, with 0 for NULL, and the bytes that it points at.
pub record Pointer : Type 0 where
  pub address : ℕ
  pub bytes : List ℕ

abbrev pub put_mb : ℕ → Mb → State → State
put_mb b m s = record s { mb_table = update s.mb_table b m }

abbrev pub put_message : ℕ → Message → State → State
put_message i m s = record s { message_slots = update s.message_slots i m }

abbrev pub put_process : ℕ → Process → State → State
put_process i p s = record s { shadow_process_table = update s.shadow_process_table i p }
