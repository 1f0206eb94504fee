-- ===== src/Base/Sysargs.antt =====
-- `USLOSS_Sysargs`: what a system call gets from user mode and gives back. A pointer is a number.
use process_control.Base.Int.{ℤ}

pub record Sysargs : Type 0 where
  pub arg1 : ℤ
  pub arg2 : ℤ
  pub arg3 : ℤ
  pub arg4 : ℤ
  pub arg5 : ℤ
