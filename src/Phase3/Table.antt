-- ===== src/Phase3/Table.antt =====
-- phase3_init of phase3/phase3.c: the handlers of the system calls.
use process_control.Base.{ℕ, ◌≡◌, refl, ◌∙◌, Option, some, List, [], ◌∷◌}
use process_control.Base.Int.{ℤ}
use process_control.Base.Sysargs.{Sysargs}
use process_control.Base.Syscalls.{
  Number, TellsApart, register, last_for, register-last_for, sys_spawn, sys_wait, sys_terminate,
  sys_semcreate, sys_semp, sys_semv, sys_semfree, sys_gettimeofday, sys_getprocinfo, sys_getpid,
  sys_sleep, sys_termread, sys_termwrite, sys_disksize, sys_diskread, sys_diskwrite,
}
use process_control.Phase3.State.{State, Routine}
use process_control.Phase3.Semaphore.{kern_sem_create, kern_sem_p, kern_sem_v}
use process_control.Phase3.Spawn.{
  kern_spawn, kern_wait, kern_terminate, kern_get_time_of_day, kern_cpu_time, kern_get_pid,
}

abbrev pub Handler : Type 0
Handler = Sysargs → State → Routine Sysargs

-- The assignments, in their order. The fuel is that of kernTerminate, the number what semCreate
-- returns where it returns none.
abbrev pub handlers : ℕ → ℤ → List (Number × Handler)
handlers fuel left_over =
    (sys_spawn, kern_spawn)
    ∷ (sys_wait, kern_wait)
    ∷ (sys_terminate, kern_terminate fuel)
    ∷ (sys_semcreate, kern_sem_create left_over)
    ∷ (sys_semp, kern_sem_p)
    ∷ (sys_semv, kern_sem_v)
    ∷ (sys_gettimeofday, kern_get_time_of_day)
    ∷ (sys_getprocinfo, kern_cpu_time)
    ∷ (sys_getpid, kern_get_pid)
    ∷ []

unfoldable pub phase3_init : (Number → ℕ) → ℕ → ℤ → (ℕ → Option Handler) → ℕ → Option Handler
unfolding register
phase3_init number fuel left_over = register number (handlers fuel left_over)

-- Which call a handler is for.
abbrev pub handler_of : ℕ → ℤ → Number → Option Handler → Option Handler
handler_of fuel left_over sys_spawn old = some kern_spawn
handler_of fuel left_over sys_wait old = some kern_wait
handler_of fuel left_over sys_terminate old = some (kern_terminate fuel)
handler_of fuel left_over sys_semcreate old = some (kern_sem_create left_over)
handler_of fuel left_over sys_semp old = some kern_sem_p
handler_of fuel left_over sys_semv old = some kern_sem_v
handler_of fuel left_over sys_gettimeofday old = some kern_get_time_of_day
handler_of fuel left_over sys_getprocinfo old = some kern_cpu_time
handler_of fuel left_over sys_getpid old = some kern_get_pid
handler_of fuel left_over _ old = old

last_for-handler_of :
    (fuel : ℕ) (left_over : ℤ) (n : Number) (old : Option Handler)
    → last_for n (handlers fuel left_over) old ≡ handler_of fuel left_over n old
unfolding last_for
last_for-handler_of fuel left_over sys_spawn old = refl
last_for-handler_of fuel left_over sys_wait old = refl
last_for-handler_of fuel left_over sys_terminate old = refl
last_for-handler_of fuel left_over sys_semcreate old = refl
last_for-handler_of fuel left_over sys_semp old = refl
last_for-handler_of fuel left_over sys_semv old = refl
last_for-handler_of fuel left_over sys_semfree old = refl
last_for-handler_of fuel left_over sys_gettimeofday old = refl
last_for-handler_of fuel left_over sys_getprocinfo old = refl
last_for-handler_of fuel left_over sys_getpid old = refl
last_for-handler_of fuel left_over sys_sleep old = refl
last_for-handler_of fuel left_over sys_termread old = refl
last_for-handler_of fuel left_over sys_termwrite old = refl
last_for-handler_of fuel left_over sys_disksize old = refl
last_for-handler_of fuel left_over sys_diskread old = refl
last_for-handler_of fuel left_over sys_diskwrite old = refl

-- When the numbers tell the calls apart, each of the nine calls of the phase finds its handler in
-- the table, and every other call what was there before.
pub phase3_init-handler_of :
    (number : Number → ℕ) (fuel : ℕ) (left_over : ℤ) (vec : ℕ → Option Handler)
    → TellsApart number
    → (n : Number)
    → phase3_init number fuel left_over vec (number n)
      ≡ handler_of fuel left_over n (vec (number n))
unfolding phase3_init
phase3_init-handler_of number fuel left_over vec apart n =
    register-last_for number apart n (handlers fuel left_over) vec
    ∙ last_for-handler_of fuel left_over n (vec (number n))
