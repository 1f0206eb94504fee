-- ===== src/Phase4/State.antt =====
-- The global data of phase4a/phase4.c, and the calls of lower phases.
use process_control.Base.{ℕ, Bool, Option, List, update}
use process_control.Base.Int.{ℤ}
use process_control.Base.Run.{Run}

abbrev pub max_proc : ℕ
max_proc = 50

-- MAXLINE of phase4.h.
abbrev pub max_line : ℕ
max_line = 80

-- `struct Process`: a link is an index of `shadowProcessTable`.
pub record Sleeper : Type 0 where
  pub pid : ℤ
  pub mbox_id : ℤ
  pub end_sleep : ℤ
  pub next : Option ℕ

-- `Disk`, less the fields that nothing reads. In the layout of a 64-bit machine the request that
-- is written over the field `request` also fills `status` and `isComplete`.
pub record Disk : Type 0 where
  pub status : ℤ
  pub is_complete : Bool

pub record State : Type 0 where
  pub global_clock_ticks : ℕ
  pub shadow_process_table : ℕ → Sleeper
  pub priority_queue_head : Option ℕ
  pub read_buffer_size : ℤ
  pub disk_track : ℕ → ℤ
  pub disks : ℕ → Disk
  pub term_lock_mbox : ℕ → ℤ
  pub term_read_mbox : ℕ → ℤ
  pub term_write_mbox : ℕ → ℤ
  pub disk_size_mbox : ℕ → ℤ
  pub disk_lock : ℕ → ℤ
  pub disk_mbox : ℕ → ℤ
  -- DAEMON_CLOCK_PID, the four of the terminals, and the two of the disks
  pub daemon_pids : ℕ → ℤ

pub data Device : Type 0 where
  clock_dev term_dev disk_dev : Device

-- `opr` of a request.
pub data Operation : Type 0 where
  seek_track read_sector write_sector count_tracks : Operation

pub data Call : Type 0 where
  wait_device : Device → ℕ → Call
  device_input : Device → ℕ → Call
  -- to a terminal, a value of its control register
  control : ℤ → ℤ → Call
  -- to a disk, `opr`, `reg1` and `reg2`
  request : ℤ → Operation → ℤ → ℤ → Call
  mbox_create : ℕ → ℕ → Call
  mbox_send mbox_recv : ℤ → Call
  -- into a buffer of the given size
  mbox_recv_into : ℤ → ℤ → Call
  mbox_cond_send : ℤ → List ℕ → Call
  -- a daemon's number, in the order of `daemon_pids`
  fork_daemon : ℕ → Call

-- An answer is what the call returns, or the status that it stores.
abbrev pub Routine : Type 0 → Type 0
Routine A = Run State Call ℤ A

-- What usloss.h defines: the three states of a device, and the fields of a terminal's status.
-- `left_over` is what a caller finds when a function returns without a value, `unset` what a
-- variable holds that was not set.
pub record Usloss : Type 0 where
  pub dev_ready : ℤ
  pub dev_busy : ℤ
  pub dev_error : ℤ
  pub stat_xmit : ℤ → ℤ
  pub stat_recv : ℤ → ℤ
  pub stat_char : ℤ → ℕ
  pub left_over : ℤ
  pub unset : ℤ

abbrev pub put_sleeper : ℕ → Sleeper → State → State
put_sleeper i p s = record s { shadow_process_table = update s.shadow_process_table i p }

abbrev pub put_disk : ℕ → Disk → State → State
put_disk i d s = record s { disks = update s.disks i d }
