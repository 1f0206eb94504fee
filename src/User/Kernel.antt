-- ===== src/User/Kernel.antt =====
-- The stubs of phase3/phase3_usermode.c.
use process_control.Base.{ℕ, ◌==◌, if◌then◌else◌}
use process_control.Base.Int.{ℤ, pos}
use process_control.Base.Run.{done, yields, halted, fault, bind}
use process_control.Base.Sysargs.{Sysargs}
use process_control.Base.Syscalls.{
  Number, sys_spawn, sys_wait, sys_terminate, sys_gettimeofday, sys_getprocinfo, sys_getpid,
  sys_semcreate, sys_semp, sys_semv, sys_semfree,
}
use process_control.User.State.{Machine, Routine, syscall, not_user_mode, int_of}

-- `memset(&args, 0, sizeof(args))`.
abbrev pub no_args : Sysargs
no_args = record { arg1 = pos 0; arg2 = pos 0; arg3 = pos 0; arg4 = pos 0; arg5 = pos 0 }

unfoldable pub require_user_mode : Machine → Number → ℕ → Routine (Unit {0})
require_user_mode m func psr =
    if psr == m.current_int
    then done tt psr
    else yields (not_user_mode func) psr (λ _ p. halted (pos 1) p)

-- The trap, and what the caller takes from the arguments behind it.
unfoldable pub trap : {A : Type 0} → Machine → Number → Sysargs → (Sysargs → A) → ℕ → Routine A
unfolding require_user_mode bind
trap m n args take psr =
    bind (require_user_mode m n psr) (λ _ p. yields (syscall n args) p (λ res q. done (take res) q))

-- The pid, and the result.
unfoldable pub spawn : Machine → ℤ → ℤ → ℤ → ℤ → ℤ → ℕ → Routine (ℤ × ℤ)
unfolding trap int_of
spawn m name func arg stack_size priority =
    trap m sys_spawn
      (record { arg1 = func; arg2 = arg; arg3 = stack_size; arg4 = priority; arg5 = name })
      (λ res. (int_of res.arg1, int_of res.arg4))

-- The pid, the status, and the result.
unfoldable pub wait : Machine → ℕ → Routine (ℤ × ℤ × ℤ)
unfolding trap int_of
wait m = trap m sys_wait no_args (λ res. (int_of res.arg1, int_of res.arg2, int_of res.arg4))

-- The `assert(0)` behind the trap is met when the call comes back.
unfoldable pub terminate : Machine → ℤ → ℕ → Routine (Unit {0})
unfolding trap bind
terminate m status psr =
    bind (trap m sys_terminate (record no_args { arg1 = status }) (λ res. tt {0}) psr)
      (λ _ p. fault p)

unfoldable pub get_time_of_day : Machine → ℕ → Routine ℤ
unfolding trap int_of
get_time_of_day m = trap m sys_gettimeofday no_args (λ res. int_of res.arg1)

unfoldable pub cpu_time : Machine → ℕ → Routine ℤ
unfolding trap int_of
cpu_time m = trap m sys_getprocinfo no_args (λ res. int_of res.arg1)

unfoldable pub get_pid : Machine → ℕ → Routine ℤ
unfolding trap int_of
get_pid m = trap m sys_getpid no_args (λ res. int_of res.arg1)

-- The semaphore, and the result.
unfoldable pub sem_create : Machine → ℤ → ℕ → Routine (ℤ × ℤ)
unfolding trap int_of
sem_create m value =
    trap m sys_semcreate (record no_args { arg1 = value })
      (λ res. (int_of res.arg1, int_of res.arg4))

unfoldable pub sem_p : Machine → ℤ → ℕ → Routine ℤ
unfolding trap int_of
sem_p m semaphore = trap m sys_semp (record no_args { arg1 = semaphore }) (λ res. int_of res.arg4)

unfoldable pub sem_v : Machine → ℤ → ℕ → Routine ℤ
unfolding trap int_of
sem_v m semaphore = trap m sys_semv (record no_args { arg1 = semaphore }) (λ res. int_of res.arg4)

unfoldable pub sem_free : Machine → ℤ → ℕ → Routine ℤ
unfolding trap int_of
sem_free m semaphore =
    trap m sys_semfree (record no_args { arg1 = semaphore }) (λ res. int_of res.arg4)
