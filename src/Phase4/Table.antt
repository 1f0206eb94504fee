-- ===== src/Phase4/Table.antt =====
-- phase4_init of phase4a/phase4.c: the handlers of the system calls.
use process_control.Base.{ℕ, ◌≡◌, refl, ◌∙◌, Option, some, List, [], ◌∷◌}
use process_control.Base.Int.{ℤ}
use process_control.Base.Run.{done, bind}
use process_control.Base.Sysargs.{Sysargs}
use process_control.Base.Syscalls.{
  Number, TellsApart, register, last_for, register-last_for, sys_spawn, sys_wait, sys_terminate,
  sys_semcreate, sys_semp, sys_semv, sys_semfree, sys_gettimeofday, sys_getprocinfo, sys_getpid,
  sys_sleep, sys_termread, sys_termwrite, sys_disksize, sys_diskread, sys_diskwrite,
}
use process_control.Phase4.State.{State, Routine, Usloss}
use process_control.Phase4.Sleep.{our_sleep}
use process_control.Phase4.Terminal.{our_term_read, our_term_write}
use process_control.Phase4.Disk.{our_disk_size, our_disk_read, our_disk_write}

abbrev pub Handler : Type 0
Handler = Sysargs → State → Routine Sysargs

-- ourSleep leaves its arguments as they are. `pid` is what getpid returns.
unfoldable pub sleep_handler : ℤ → Handler
unfolding our_sleep bind
sleep_handler pid args s = bind (our_sleep pid args s) (λ _ t. done args t)

-- The assignments, in their order. `text` is the string at an address.
abbrev pub handlers : Usloss → ℤ → (ℤ → List ℕ) → List (Number × Handler)
handlers u pid text =
    (sys_sleep, sleep_handler pid)
    ∷ (sys_termread, our_term_read)
    ∷ (sys_termwrite, λ args. our_term_write (text args.arg1) args)
    ∷ (sys_disksize, our_disk_size)
    ∷ (sys_diskread, our_disk_read u)
    ∷ (sys_diskwrite, our_disk_write u)
    ∷ []

unfoldable pub phase4_init :
    (Number → ℕ) → Usloss → ℤ → (ℤ → List ℕ) → (ℕ → Option Handler) → ℕ → Option Handler
unfolding register
phase4_init number u pid text = register number (handlers u pid text)

-- Which call a handler is for.
abbrev pub handler_of : Usloss → ℤ → (ℤ → List ℕ) → Number → Option Handler → Option Handler
handler_of u pid text sys_sleep old = some (sleep_handler pid)
handler_of u pid text sys_termread old = some our_term_read
handler_of u pid text sys_termwrite old = some (λ args. our_term_write (text args.arg1) args)
handler_of u pid text sys_disksize old = some our_disk_size
handler_of u pid text sys_diskread old = some (our_disk_read u)
handler_of u pid text sys_diskwrite old = some (our_disk_write u)
handler_of u pid text _ old = old

last_for-handler_of :
    (u : Usloss) (pid : ℤ) (text : ℤ → List ℕ) (n : Number) (old : Option Handler)
    → last_for n (handlers u pid text) old ≡ handler_of u pid text n old
unfolding last_for
last_for-handler_of u pid text sys_spawn old = refl
last_for-handler_of u pid text sys_wait old = refl
last_for-handler_of u pid text sys_terminate old = refl
last_for-handler_of u pid text sys_semcreate old = refl
last_for-handler_of u pid text sys_semp old = refl
last_for-handler_of u pid text sys_semv old = refl
last_for-handler_of u pid text sys_semfree old = refl
last_for-handler_of u pid text sys_gettimeofday old = refl
last_for-handler_of u pid text sys_getprocinfo old = refl
last_for-handler_of u pid text sys_getpid old = refl
last_for-handler_of u pid text sys_sleep old = refl
last_for-handler_of u pid text sys_termread old = refl
last_for-handler_of u pid text sys_termwrite old = refl
last_for-handler_of u pid text sys_disksize old = refl
last_for-handler_of u pid text sys_diskread old = refl
last_for-handler_of u pid text sys_diskwrite old = refl

-- When the numbers tell the calls apart, each of the six calls of the phase finds its handler in
-- the table, and every other call what was there before.
pub phase4_init-handler_of :
    (number : Number → ℕ) (u : Usloss) (pid : ℤ) (text : ℤ → List ℕ) (vec : ℕ → Option Handler)
    → TellsApart number
    → (n : Number)
    → phase4_init number u pid text vec (number n) ≡ handler_of u pid text n (vec (number n))
unfolding phase4_init
phase4_init-handler_of number u pid text vec apart n =
    register-last_for number apart n (handlers u pid text) vec
    ∙ last_for-handler_of u pid text n (vec (number n))
