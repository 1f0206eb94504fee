-- ===== src/User/State.antt =====
-- What the user-mode stubs share: the processor status, the trap, and the casts of C.
use process_control.Base.{ℕ, ◌-◌, ◌%◌, ltb, if◌then◌else◌, Bool}
use process_control.Base.Int.{ℤ, pos, negsuc}
use process_control.Base.Run.{Run}
use process_control.Base.Sysargs.{Sysargs}
use process_control.Base.Syscalls.{Number}

-- What usloss.h defines: the value USLOSS_PSR_CURRENT_INT, and whether a status has the bit
-- USLOSS_PSR_CURRENT_MODE.
pub record Machine : Type 0 where
  pub current_int : ℕ
  pub in_kernel : ℕ → Bool

-- The state of a stub is the processor status.
pub data Call : Type 0 where
  -- `USLOSS_Syscall(&args)`
  syscall : Number → Sysargs → Call
  -- the message of require_user_mode, which names the caller, and that of CHECKMODE
  not_user_mode : Number → Call
  from_kernel : Call

-- A trap is answered by the arguments that the handler left.
abbrev pub Routine : Type 0 → Type 0
Routine A = Run ℕ Call Sysargs A

-- `(int) x` for a word x: the residue modulo 2 ^ 32 that has a sign.
abbrev pub low_bits : ℤ → ℕ
low_bits (pos n) = n % 4294967296
low_bits (negsuc n) = 4294967295 - n % 4294967296

abbrev pub signed : ℕ → ℤ
signed w = if ltb w 2147483648 then pos w else negsuc (4294967295 - w)

unfoldable pub int_of : ℤ → ℤ
int_of z = signed (low_bits z)
