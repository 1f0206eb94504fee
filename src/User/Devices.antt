-- ===== src/User/Devices.antt =====
-- The stubs of phase4a/phase4_usermode.c. `unset` is what the arguments hold that no stub sets.
use process_control.Base.{ℕ, if◌then◌else◌}
use process_control.Base.Int.{ℤ, pos}
use process_control.Base.Run.{done, yields, halted, bind}
use process_control.Base.Sysargs.{Sysargs}
use process_control.Base.Syscalls.{
  Number, sys_sleep, sys_termread, sys_termwrite, sys_diskread, sys_diskwrite, sys_disksize,
}
use process_control.User.State.{Machine, Routine, syscall, from_kernel, int_of}

-- CHECKMODE.
unfoldable pub check_mode : Machine → ℕ → Routine (Unit {0})
check_mode m psr =
    if m.in_kernel psr then yields from_kernel psr (λ _ p. halted (pos 1) p) else done tt psr

unfoldable pub trap : {A : Type 0} → Machine → Number → Sysargs → (Sysargs → A) → ℕ → Routine A
unfolding check_mode bind
trap m n args take psr =
    bind (check_mode m psr) (λ _ p. yields (syscall n args) p (λ res q. done (take res) q))

unfoldable pub sleep : Machine → Sysargs → ℤ → ℕ → Routine ℤ
unfolding trap int_of
sleep m unset seconds = trap m sys_sleep (record unset { arg1 = seconds }) (λ res. int_of res.arg4)

-- The number of characters, and the result.
unfoldable pub term_read : Machine → Sysargs → ℤ → ℤ → ℤ → ℕ → Routine (ℤ × ℤ)
unfolding trap int_of
term_read m unset buffer buffer_size unit_id =
    trap m sys_termread (record unset { arg1 = buffer; arg2 = buffer_size; arg3 = unit_id })
      (λ res. (int_of res.arg2, int_of res.arg4))

unfoldable pub term_write : Machine → Sysargs → ℤ → ℤ → ℤ → ℕ → Routine (ℤ × ℤ)
unfolding trap int_of
term_write m unset buffer buffer_size unit_id =
    trap m sys_termwrite (record unset { arg1 = buffer; arg2 = buffer_size; arg3 = unit_id })
      (λ res. (int_of res.arg2, int_of res.arg4))

abbrev disk_args : ℤ → ℤ → ℤ → ℤ → ℤ → Sysargs
disk_args disk_buffer unit track first sectors = record {
  arg1 = disk_buffer;
  arg2 = sectors;
  arg3 = track;
  arg4 = first;
  arg5 = unit;
}

-- The status, and the result.
unfoldable pub disk_read : Machine → ℤ → ℤ → ℤ → ℤ → ℤ → ℕ → Routine (ℤ × ℤ)
unfolding trap int_of
disk_read m disk_buffer unit track first sectors =
    trap m sys_diskread (disk_args disk_buffer unit track first sectors)
      (λ res. (int_of res.arg1, int_of res.arg4))

unfoldable pub disk_write : Machine → ℤ → ℤ → ℤ → ℤ → ℤ → ℕ → Routine (ℤ × ℤ)
unfolding trap int_of
disk_write m disk_buffer unit track first sectors =
    trap m sys_diskwrite (disk_args disk_buffer unit track first sectors)
      (λ res. (int_of res.arg1, int_of res.arg4))

-- The sizes of a sector, a track and the disk, and the result.
unfoldable pub disk_size : Machine → Sysargs → ℤ → ℕ → Routine (ℤ × ℤ × ℤ × ℤ)
unfolding trap int_of
disk_size m unset unit =
    trap m sys_disksize (record unset { arg1 = unit })
      (λ res. (int_of res.arg1, int_of res.arg2, int_of res.arg3, int_of res.arg4))
