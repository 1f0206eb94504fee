-- ===== src/User/Link.antt =====
-- The way from a stub to its handler: the trap runs `systemCallVec[number]`, and the stub goes on
-- with the arguments that the handler left.
use process_control.Base.{ℕ, if◌then◌else◌, ◌≡◌, refl, ap, Option, none, some, eq→==, false}
use process_control.Base.Int.{pos}
use process_control.Base.Run.{Run, done, yields, halted, fault, out_of_fuel, bind}
use process_control.Base.Sysargs.{Sysargs}
use process_control.Base.Syscalls.{Number}
use process_control.User.State.{Machine, Call, syscall, not_user_mode, from_kernel}
use process_control.User.Kernel
use process_control.User.Devices

-- An entry that is not set is a null pointer.
abbrev pub serve :
    {S E R : Type 0}
    → (Number → ℕ)
    → (ℕ → Option (Sysargs → S → Run S E R Sysargs))
    → Number
    → Sysargs
    → S
    → Run S E R Sysargs
serve number vec n args s = elim (vec (number n)) [ none ↦ fault s | some handler ↦ handler args s ]

-- A program of user mode over the kernel; the messages leave the kernel's state.
unfoldable pub through :
    {S E R A : Type 0}
    → (Number → Sysargs → S → Run S E R Sysargs)
    → Sysargs
    → Run ℕ Call Sysargs A
    → S
    → Run S E R A
unfolding bind
through trap unset (done a p) s = done a s
through trap unset (yields (syscall n args) p k) s =
    bind (trap n args s) (λ res t. through trap unset (k res p) t)
through trap unset (yields (not_user_mode n) p k) s = through trap unset (k unset p) s
through trap unset (yields from_kernel p k) s = through trap unset (k unset p) s
through trap unset (halted c p) s = halted c s
through trap unset (fault p) s = fault s
through trap unset (out_of_fuel p) s = out_of_fuel s

module _ {S E R A : Type 0} (kernel : Number → Sysargs → S → Run S E R Sysargs) (unset : Sysargs)
    (m : Machine) (n : Number) (args : Sysargs) (take : Sysargs → A) where
  -- A stub in user mode, and what the program does behind it.
  pub through-kernel-trap :
      {B : Type 0} (f : A → ℕ → Run ℕ Call Sysargs B) (s : S)
      → through kernel unset (bind (Kernel.trap m n args take m.current_int) f) s
        ≡ bind (kernel n args s) (λ res t. through kernel unset (f (take res) m.current_int) t)
  unfolding through Kernel.trap
  through-kernel-trap f s =
      ap
        (λ b.
          through kernel unset
            (bind
              (bind
                (if b
                  then done tt m.current_int
                  else yields (not_user_mode n) m.current_int (λ _ p. halted (pos 1) p))
                (λ _ p. yields (syscall n args) p (λ res q. done (take res) q)))
              f)
            s)
        (eq→== m.current_int m.current_int refl)

  pub through-device-trap :
      {B : Type 0} (f : A → ℕ → Run ℕ Call Sysargs B) (psr : ℕ) (s : S)
      → m.in_kernel psr ≡ false
      → through kernel unset (bind (Devices.trap m n args take psr) f) s
        ≡ bind (kernel n args s) (λ res t. through kernel unset (f (take res) psr) t)
  unfolding through Devices.trap
  through-device-trap f psr s user =
      ap
        (λ b.
          through kernel unset
            (bind
              (bind (if b then yields from_kernel psr (λ _ p. halted (pos 1) p) else done tt psr)
                (λ _ p. yields (syscall n args) p (λ res q. done (take res) q)))
              f)
            s)
        user
