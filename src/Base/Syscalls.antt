-- ===== src/Base/Syscalls.antt =====
-- The numbers of the system calls, which usyscall.h gives, and the table systemCallVec of their
-- handlers. A number is known by its name; `number` says what usyscall.h makes of it.
use Prim.Native.Nat.{ℕ}
use mathlib.Core.Path.{◌≡◌, refl, ap, ◌∙◌}
use mathlib.Core.Option.{Option, some}
use mathlib.Core.List.{List, [], ◌∷◌}
use process_control.Base.Tests.{◌==◌, if◌then◌else◌, update}

pub data Number : Type 0 where
  sys_spawn sys_wait sys_terminate sys_semcreate sys_semp sys_semv sys_semfree : Number
  sys_gettimeofday sys_getprocinfo sys_getpid : Number
  sys_sleep sys_termread sys_termwrite sys_disksize sys_diskread sys_diskwrite : Number

-- A place for each name, to tell the names apart.
abbrev pub code : Number → ℕ
code sys_spawn = 0
code sys_wait = 1
code sys_terminate = 2
code sys_semcreate = 3
code sys_semp = 4
code sys_semv = 5
code sys_semfree = 6
code sys_gettimeofday = 7
code sys_getprocinfo = 8
code sys_getpid = 9
code sys_sleep = 10
code sys_termread = 11
code sys_termwrite = 12
code sys_disksize = 13
code sys_diskread = 14
code sys_diskwrite = 15

-- Two names have the same number exactly where they are the same name.
abbrev pub TellsApart : (Number → ℕ) → Type 0
TellsApart number = (a b : Number) → (number a == number b) ≡ (code a == code b)

-- `systemCallVec[number] = handler;` for each entry in turn.
unfoldable pub register :
    {H : Type 0} → (Number → ℕ) → List (Number × H) → (ℕ → Option H) → ℕ → Option H
register number [] vec = vec
register number ((n, h) ∷ entries) vec = register number entries (update vec (number n) (some h))

-- The last entry for a name, or else what was there.
unfoldable pub last_for : {H : Type 0} → Number → List (Number × H) → Option H → Option H
last_for n [] old = old
last_for n ((m, h) ∷ entries) old = last_for n entries (if code m == code n then some h else old)

-- A call finds the entry that was written last for its name.
pub register-last_for :
    {H : Type 0} (number : Number → ℕ)
    → TellsApart number
    → (n : Number) (entries : List (Number × H)) (vec : ℕ → Option H)
    → register number entries vec (number n) ≡ last_for n entries (vec (number n))
unfolding register last_for
register-last_for number apart n [] vec = refl
register-last_for number apart n ((m, h) ∷ entries) vec =
    register-last_for number apart n entries (update vec (number m) (some h))
    ∙ ap (λ b. last_for n entries (if b then some h else vec (number n))) (apart m n)
