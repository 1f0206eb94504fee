-- ===== src/User/Processes.antt =====
-- Spawn, Wait and Terminate from user mode down to the calls of phase 1.
use process_control.Base.{ℕ, ◌≡◌, refl, ap, ◌∙◌, Bool, true, false, if◌then◌else◌, Option, arith}
use process_control.Base.Int.{ℤ, pos, negsuc, minus_two, eqb_ℤ}
use process_control.Base.Run.{done, bind, settle}
use process_control.Base.Sysargs.{Sysargs}
use process_control.Base.Syscalls.{Number, TellsApart, sys_spawn, sys_wait}
use process_control.Phase3.State.{State, Answer, Call, Routine, fork1, join}
use process_control.Phase3.Table.{Handler}
use process_control.Phase3.Spawn.{pointer, create_shadow_process, kern_spawn, kern_wait}
use process_control.User
use process_control.User.State.{Machine, int_of}
use process_control.User.Casts.{IsInt, int_of-IsInt}
use process_control.User.Kernel.{no_args, spawn, wait}
use process_control.User.Link.{through, through-kernel-trap}
use process_control.User.Semaphores.{kernel, kernel-handler_of}

int_of-zero : int_of (pos 0) ≡ pos 0
int_of-zero = int_of-IsInt (pos 0) (omega arith)

none_found : (z : ℤ) → eqb_ℤ z minus_two ≡ true → z ≡ minus_two
none_found (pos n) e = ground arith
none_found (negsuc n) e = ap negsuc (ground arith)

module _ (m : Machine) (number : Number → ℕ) (apart : TellsApart number) (fuel : ℕ) (left_over : ℤ)
    (vec : ℕ → Option Handler) where
  abbrev pub run : {A : Type 0} → User.State.Routine A → State → Routine A
  run = through (kernel m number apart fuel left_over vec) no_args

  -- Wait asks phase 1 for a child once. The caller goes on with the pid and the status that join
  -- gave and the result 0, or, where join finds no child, with zeros and the result -2, in the state
  -- that the call left. The pid and the status are values of an `int`.
  pub wait-join :
      {A : Type 0} (f : ℤ × ℤ × ℤ → ℕ → User.State.Routine A) (env : Call → State → Answer × State)
      (s : State)
      → IsInt (env join s).0.result
      → IsInt (env join s).0.status
      → let (answer, t) = env join s in
        settle env (run (bind (wait m m.current_int) f) s)
        ≡ settle env (
            run
              (f
                (if eqb_ℤ answer.result minus_two
                  then (pos 0, pos 0, minus_two)
                  else (answer.result, answer.status, pos 0))
                m.current_int)
              t)
  unfolding wait kern_wait settle bind
  wait-join {A = A} f env s small_pid small_status =
      let (answer, t) = env join s in
      ap (settle env) (
        through-kernel-trap (kernel m number apart fuel left_over vec) no_args m sys_wait no_args
          (λ res. (int_of res.arg1, int_of res.arg2, int_of res.arg4)) f s
        ∙ ap
            (λ r. bind r (λ res u.
              run (f (int_of res.arg1, int_of res.arg2, int_of res.arg4) m.current_int) u))
            (kernel-handler_of m number apart fuel left_over vec sys_wait kern_wait no_args s refl))
      ∙ answered t answer (eqb_ℤ answer.result minus_two) refl small_pid small_status
    where
      taken : Sysargs → ℤ × ℤ × ℤ
      taken res = (int_of res.arg1, int_of res.arg2, int_of res.arg4)

      answered :
          (t : State) (answer : Answer) (b : Bool)
          → eqb_ℤ answer.result minus_two ≡ b
          → IsInt answer.result
          → IsInt answer.status
          → settle env (
              bind
                (if b
                  then done (record no_args { arg4 = answer.result }) t
                  else done
                      (record no_args { arg1 = answer.result; arg2 = answer.status; arg4 = pos 0 })
                      t)
                (λ res u. run (f (taken res) m.current_int) u))
            ≡ settle env (
                run
                  (f
                    (if b then (pos 0, pos 0, minus_two) else (answer.result, answer.status, pos 0))
                    m.current_int)
                  t)
      answered t answer true e small_pid small_status =
          ap (λ (z : ℤ × ℤ × ℤ). settle env (run (f z m.current_int) t))
            (λ k. (
              int_of-zero k,
              int_of-zero k,
              (int_of-IsInt answer.result small_pid ∙ none_found answer.result e) k,
            ))
      answered t answer false e small_pid small_status =
          ap (λ (z : ℤ × ℤ × ℤ). settle env (run (f z m.current_int) t))
            (λ k. (
              int_of-IsInt answer.result small_pid k,
              int_of-IsInt answer.status small_status k,
              int_of-zero k,
            ))

  -- Spawn gives the caller the pid that fork1 answered and, whatever that is, as its result the
  -- priority that it was called with: the handler leaves the fourth argument. The pid and the priority
  -- are values of an `int`.
  pub spawn-priority :
      {A : Type 0} (f : ℤ × ℤ → ℕ → User.State.Routine A) (name func arg stack_size priority : ℤ)
      (env : Call → State → Answer × State) (s : State)
      → IsInt priority
      → IsInt
          (env
            (fork1 name arg stack_size priority)
            (create_shadow_process (pointer func) arg s)).0.result
      → let (answer, t) =
          env (fork1 name arg stack_size priority) (create_shadow_process (pointer func) arg s) in
        settle env (run (bind (spawn m name func arg stack_size priority m.current_int) f) s)
        ≡ settle env (run (f (answer.result, priority) m.current_int) t)
  unfolding spawn kern_spawn settle bind
  spawn-priority f name func arg stack_size priority env s small small_pid =
      let (answer, t) =
        env (fork1 name arg stack_size priority) (create_shadow_process (pointer func) arg s) in
      ap (settle env) (
        through-kernel-trap (kernel m number apart fuel left_over vec) no_args m sys_spawn
          (record { arg1 = func; arg2 = arg; arg3 = stack_size; arg4 = priority; arg5 = name })
          (λ res. (int_of res.arg1, int_of res.arg4)) f s
        ∙ ap (λ r. bind r (λ res u. run (f (int_of res.arg1, int_of res.arg4) m.current_int) u))
            (kernel-handler_of m number apart fuel left_over vec sys_spawn kern_spawn
              (record { arg1 = func; arg2 = arg; arg3 = stack_size; arg4 = priority; arg5 = name })
              s refl))
      ∙ ap (λ (z : ℤ × ℤ). settle env (run (f z m.current_int) t))
          (λ k. (int_of-IsInt answer.result small_pid k, int_of-IsInt priority small k))
