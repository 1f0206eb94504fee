-- ===== src/Phase2/Device/Handlers.antt =====
-- What the handlers and the waiting for devices of phase2/phase2.c do.
use process_control.Base.{
  ℕ, zero, suc, ◌+◌, ◌%◌, ◌≤◌, ◌<◌, ◌≡◌, refl, subst, ◌≢◌, inl, inr, Bool, true, false, none, some,
  arith, ◌==◌, ◌||◌, not, Bool-cases,
}
use process_control.Base.Int.{ℤ, pos, negsuc, minus_one, is_neg, ltb_ℤ}
use process_control.Base.Run.{done, halted, settle, bind}
use process_control.Phase2.State.{
  Call, Mb, State, console, invalid_syscall, max_mbox, max_syscalls, unimplemented_syscall,
}
use process_control.Phase2.Mailbox.Send.{mbox_send, send_refusal}
use process_control.Phase2.Device.{
  Devices, check_io_from, device_mailbox, phase2_check_io, syscall_trap, term_trap, as_pointer,
  sizeof_int,
}

-- Nobody waits at the mailbox.
abbrev pub IsIdle : Mb → Type 0
IsIdle mb = (mb.consumer_queue_head ≡ none) × (mb.producer_queue_head ≡ none)

check_io_from-false :
    (s : State) (rounds i : ℕ)
    → check_io_from s rounds i ≡ false
    → (j : ℕ) → j < rounds
    → IsIdle (s.mb_table (i + j))
unfolding check_io_from
check_io_from-false s zero i e j h = absurd (omega arith)
check_io_from-false s (suc rounds) i e zero h =
    let stay : i + 0 ≡ i = omega arith in rw stay (ground arith)
check_io_from-false s (suc rounds) i e (suc j) h =
    let shift : i + suc j ≡ i + 1 + j = omega arith in
    rw shift (check_io_from-false s rounds (i + 1) (ground arith) j (omega arith))

check_io_from-true :
    (s : State) (rounds i : ℕ)
    → check_io_from s rounds i ≡ true
    → (j : ℕ) × (i ≤ j) × (j < i + rounds) × ¬ IsIdle (s.mb_table j)
unfolding check_io_from
check_io_from-true s zero i e = cc
check_io_from-true s (suc rounds) i e = elim (Bool-cases (check_io_from s rounds (i + 1))) [
  | inl rest ↦
      let (j, from, to, busy) = check_io_from-true s rounds (i + 1) rest in
      (j, omega arith, omega arith, busy)
  | inr none_behind ↦ (i, omega arith, omega arith, λ idle. ground arith)
]

-- phase2_check_io reports that somebody waits at one of the seven device mailboxes exactly when that
-- is so: if it answers 1 there is such a mailbox, and if it answers 0 all seven are idle.
pub phase2_check_io_lem :
    (s : State)
    → (phase2_check_io s ≡ true → (j : ℕ) × (j < 7) × ¬ IsIdle (s.mb_table j))
      × (phase2_check_io s ≡ false → (j : ℕ) → j < 7 → IsIdle (s.mb_table j))
unfolding phase2_check_io
phase2_check_io_lem s = (
  λ e. let (j, from, to, busy) = check_io_from-true s 7 0 e in (j, omega arith, busy),
  λ e j h.
      let start : 0 + j ≡ j = omega arith in
      subst (λ k. IsIdle (s.mb_table k)) start (check_io_from-false s 7 0 e j h),
)

-- Every system call that traps here halts the simulation with code 1, whatever its number and
-- whatever `systemCallVec` holds.
pub syscall_trap-halts :
    (env : Call → State → Unit {0} × State) (number : ℤ) (s : State)
    → (t : State) × (settle env (syscall_trap number s) ≡ halted (pos 1) t)
unfolding settle syscall_trap
syscall_trap-halts env number s =
    elim (Bool-cases (is_neg number || not (ltb_ℤ number (pos max_syscalls)))) [
      | inl bad ↦ ((env (console (invalid_syscall number)) s).1, rw bad)
      | inr good ↦ ((env (console (unimplemented_syscall number)) s).1, rw good)
    ]

-- The three device types differ.
pub record DevicesDiffer (dev : Devices) : Type 0 where
  pub clock_disk : dev.clock_dev ≢ dev.disk_dev
  pub clock_term : dev.clock_dev ≢ dev.term_dev
  pub disk_term : dev.disk_dev ≢ dev.term_dev

-- The three kinds of waits and their mailboxes.
data WaitsAt (dev : Devices) (type : ℕ) (unit : ℤ) (k : ℕ) : Type 0 where
  clock : type ≡ dev.clock_dev → unit ≡ pos 0 → k ≡ 0 → WaitsAt dev type unit k
  disk : (u : ℕ) → u < 2 → type ≡ dev.disk_dev → unit ≡ pos u → k ≡ u + 1 → WaitsAt dev type unit k
  term : (u : ℕ) → u < 4 → type ≡ dev.term_dev → unit ≡ pos u → k ≡ u + 3 → WaitsAt dev type unit k

device_mailbox-WaitsAt :
    (dev : Devices) (type : ℕ) (unit : ℤ) (k : ℕ)
    → DevicesDiffer dev
    → device_mailbox dev type unit ≡ some (pos k)
    → WaitsAt dev type unit k
unfolding device_mailbox
device_mailbox-WaitsAt dev type (negsuc n) k d e = absurd (ground arith)
device_mailbox-WaitsAt dev type (pos n) k d e = elim (Bool-cases (type == dev.term_dev)) [
  | inl t ↦ term n (ground arith) (ground arith) refl (ground arith)
  | inr t ↦ elim (Bool-cases (type == dev.disk_dev)) [
    | inl t' ↦ disk n (ground arith) (ground arith) refl (ground arith)
    | inr t' ↦ clock (ground arith) (ground arith) (ground arith)
  ]
]

WaitsAt-unique :
    (dev : Devices) (type type' : ℕ) (unit unit' : ℤ) (k : ℕ)
    → DevicesDiffer dev
    → WaitsAt dev type unit k
    → WaitsAt dev type' unit' k
    → (type ≡ type') × (unit ≡ unit') × (k < 7)
WaitsAt-unique dev type type' unit unit' k d (clock t v e) (clock t' v' e') = ground arith
WaitsAt-unique dev type type' unit unit' k d (disk u h t v e) w = ground arith
WaitsAt-unique dev type type' unit unit' k d w w' = ground arith

-- Two waits at the same device mailbox are waits for the same unit of the same device.
pub device_mailbox_injective :
    (dev : Devices) (type type' : ℕ) (unit unit' : ℤ) (k : ℕ)
    → DevicesDiffer dev
    → device_mailbox dev type unit ≡ some (pos k)
    → device_mailbox dev type' unit' ≡ some (pos k)
    → (type ≡ type') × (unit ≡ unit') × (k < 7)
device_mailbox_injective dev type type' unit unit' k d e e' =
    WaitsAt-unique dev type type' unit unit' k d (device_mailbox-WaitsAt dev type unit k d e)
      (device_mailbox-WaitsAt dev type' unit' k d e')

null_refused :
    (mb : Mb)
    → mb.released ≡ false
    → mb.is_initialized ≡ true
    → send_refusal mb (as_pointer 0) (pos sizeof_int) ≡ some minus_one
unfolding send_refusal
null_refused mb live ready = ground arith

-- A terminal whose status word is 0 is not reported: MboxSend takes the status for a null pointer,
-- refuses it and leaves the state as it is.
pub term_trap-drops_zero :
    (malloc : ℤ → Bool) (me unit : ℕ) (s : State)
    → unit < 4
    → (s.mb_table (unit + 3)).released ≡ false
    → (s.mb_table (unit + 3)).is_initialized ≡ true
    → term_trap malloc me unit 0 s ≡ done tt s
unfolding term_trap mbox_send bind
term_trap-drops_zero malloc me unit s range live ready =
    let slot : (unit + 3) % max_mbox ≡ unit + 3 = omega arith in
    let refused : send_refusal (s.mb_table (unit + 3)) (as_pointer 0) (pos sizeof_int)
        ≡ some minus_one =
      null_refused (s.mb_table (unit + 3)) live ready in
    simp (slot, refused, term_trap, mbox_send)
