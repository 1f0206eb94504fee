-- ===== src/Phase3/Spawn.antt =====
-- createShadowProcess, tramp, kernSpawn, kernWait, kernTerminate and the calls that read the time
-- and the pid, of phase3/phase3.c.
pub mod Drift
pub mod Ending
use process_control.Base.{ℕ, zero, suc, ◌+◌, ◌%◌, if◌then◌else◌, Option, none, some, update}
use process_control.Base.Int.{ℤ, pos, negsuc, minus_two, index_of, eqb_ℤ}
use process_control.Base.Run.{done, yields, fault, out_of_fuel, bind}
use process_control.Base.Sysargs.{Sysargs}
use process_control.Phase3.State.{
  State, Routine, max_proc, fork1, join, quit, current_time, readtime, getpid, user_mode, start,
  terminate,
}

-- The phase counts the pids on its own; the answer, the new pid, is not used.
unfoldable pub create_shadow_process : Option ℕ → ℤ → State → State
create_shadow_process func arg s = record s {
  shadow_process_table =
      update s.shadow_process_table (s.pid_counter % max_proc)
        (record { pid = s.pid_counter; start_func = func; arg = arg });
  pid_counter = s.pid_counter + 1;
}

-- `getpid()`, then the start function of the entry below it, in user mode.
unfoldable pub tramp : State → Routine (Unit {0})
tramp s = yields user_mode s (λ _ t. yields getpid t (λ answer u.
    elim (index_of max_proc answer.result) [
      | none ↦ fault u
      | some i ↦ elim (u.shadow_process_table i).start_func [
        | none ↦ fault u
        | some f ↦
            yields (start f (u.shadow_process_table i).arg) u
              (λ status v. yields (terminate status.result) v (λ _ w. done tt w))
      ]
    ]))

-- The start function of a system call's argument.
abbrev pub pointer : ℤ → Option ℕ
pointer (pos zero) = none
pointer (pos (suc n)) = some (suc n)
pointer (negsuc n) = none

-- The shadow process is made before fork1 says whether there is a process.
unfoldable pub kern_spawn : Sysargs → State → Routine Sysargs
unfolding create_shadow_process
kern_spawn args s =
    yields (fork1 args.arg5 args.arg2 args.arg3 args.arg4)
      (create_shadow_process (pointer args.arg1) args.arg2 s)
      (λ answer t. done (record args { arg1 = answer.result }) t)

unfoldable pub kern_wait : Sysargs → State → Routine Sysargs
kern_wait args s = yields join s (λ answer t.
    if eqb_ℤ answer.result minus_two
    then done (record args { arg4 = answer.result }) t
    else done (record args { arg1 = answer.result; arg2 = answer.status; arg4 = pos 0 }) t)

-- `while (join(&status) != -2) {}`; a join that finds no child leaves the status.
unfoldable pub join_all : ℕ → ℤ → State → Routine ℤ
join_all zero status s = out_of_fuel s
join_all (suc fuel) status s = yields join s (λ answer t.
    if eqb_ℤ answer.result minus_two then done status t else join_all fuel answer.status t)

-- quit does not return; were it to, the call would give back its arguments.
unfoldable pub kern_terminate : ℕ → Sysargs → State → Routine Sysargs
unfolding join_all bind
kern_terminate fuel args s =
    bind (join_all fuel args.arg1 s)
      (λ status t. yields (quit args.arg1) t (λ _ u. done (record args { arg1 = status }) u))

unfoldable pub kern_get_time_of_day : Sysargs → State → Routine Sysargs
kern_get_time_of_day args s =
    yields current_time s (λ answer t. done (record args { arg1 = answer.result }) t)

unfoldable pub kern_cpu_time : Sysargs → State → Routine Sysargs
kern_cpu_time args s = yields readtime s (λ answer t. done (record args { arg1 = answer.result }) t)

unfoldable pub kern_get_pid : Sysargs → State → Routine Sysargs
kern_get_pid args s = yields getpid s (λ answer t. done (record args { arg1 = answer.result }) t)
