-- ===== src/User/Terminals.antt =====
-- TermRead from user mode down to the terminals.
use process_control.Base.{
  ℕ, ◌≡◌, refl, ap, ◌∙◌, Bool, true, false, ◌&&◌, not, ltb, if◌then◌else◌, Option, none, some, List,
  arith,
}
use process_control.Base.Int.{ℤ, pos, negsuc, minus_one, is_neg, pos_part, ltb_ℤ}
use process_control.Base.Run.{done, yields, bind, settle}
use process_control.Base.Run.Laws.{settle-bind-done}
use process_control.Base.Sysargs.{Sysargs}
use process_control.Base.Syscalls.{Number, TellsApart, sys_termread}
use process_control.Phase4.State.{State, Call, Routine, Usloss, mbox_recv_into}
use process_control.Phase4.Terminal.{term_unit, our_term_read}
use process_control.Phase4.Table.{Handler}
use process_control.User
use process_control.User.State.{Machine, int_of}
use process_control.User.Casts.{IsInt, int_of-IsInt}
use process_control.User.Devices.{term_read}
use process_control.User.Link.{through-device-trap}
use process_control.User.Drivers.{kernel, run_on, kernel-handler_of}

-- A read that is not refused: from one of the four terminals, into a buffer that is not empty.
abbrev pub is_readable : ℤ → ℤ → Bool
is_readable unit size = (not (is_neg unit) && ltb_ℤ unit (pos 4)) && ltb_ℤ (pos 0) size

abbrev answer_if : (Call → ℤ) → Bool → ℕ → ℤ → State → ℤ × ℤ
answer_if answer accepted unit size s =
    if accepted
    then (answer (mbox_recv_into (s.term_read_mbox unit) size), pos 0)
    else (size, minus_one)

-- What TermRead gives its caller: the number of characters, and the result.
abbrev pub read_answer : (Call → ℤ) → ℤ → ℤ → State → ℤ × ℤ
read_answer answer unit size s = answer_if answer (is_readable unit size) (pos_part unit) size s

-- The handler by the same test.
our_term_read-settle :
    (answer : Call → ℤ) (args : Sysargs) (s : State)
    → settle (λ e t. (answer e, t)) (our_term_read args s)
      ≡ done
          (record args {
            arg2 = (read_answer answer args.arg3 args.arg2 s).0;
            arg4 = (read_answer answer args.arg3 args.arg2 s).1;
          })
          (record s { read_buffer_size = args.arg2 })
unfolding our_term_read settle
our_term_read-settle answer args s = by_unit args.arg3
  where
    t : State
    t = record s { read_buffer_size = args.arg2 }

    ends : Bool → ℕ → Routine Sysargs
    ends b n =
        let (count, result) = answer_if answer b n args.arg2 s in
        done (record args { arg2 = count; arg4 = result }) t

    accepted : ℕ → Bool → Routine Sysargs
    accepted n b =
        if b
        then yields (mbox_recv_into (t.term_read_mbox n) args.arg2) t
            (λ size v. done (record args { arg2 = size; arg4 = pos 0 }) v)
        else done (record args { arg4 = minus_one }) t

    found : Option ℕ → Routine Sysargs
    found none = done (record args { arg4 = minus_one }) t
    found (some n) = accepted n (ltb_ℤ (pos 0) args.arg2)

    by_size : (n : ℕ) (b : Bool) → settle (λ e u. (answer e, u)) (accepted n b) ≡ ends b n
    by_size n true = refl
    by_size n false = refl

    by_bound :
        (n : ℕ) (b : Bool)
        → settle (λ e u. (answer e, u)) (found (if b then some n else none))
          ≡ ends (b && ltb_ℤ (pos 0) args.arg2) n
    by_bound n true = by_size n (ltb_ℤ (pos 0) args.arg2)
    by_bound n false = refl

    below : (n : ℕ) → ltb n 4 ≡ ltb_ℤ (pos n) (pos 4)
    below n = ground arith

    by_unit :
        (unit : ℤ)
        → settle (λ e u. (answer e, u)) (found (term_unit unit))
          ≡ ends (is_readable unit args.arg2) (pos_part unit)
    by_unit (pos n) =
        by_bound n (ltb n 4) ∙ ap (λ b. ends (b && ltb_ℤ (pos 0) args.arg2) n) (below n)
    by_unit (negsuc n) = refl

module _ (m : Machine) (number : Number → ℕ) (apart : TellsApart number) (u : Usloss) (pid : ℕ)
    (text : ℤ → List ℕ) (vec : ℕ → Option Handler) (unset : Sysargs) (psr : ℕ)
    (user : m.in_kernel psr ≡ false) where
  abbrev run_here : {A : Type 0} → User.State.Routine A → State → Routine A
  run_here = run_on m number apart u pid text vec unset psr user

  -- TermRead from one of the four terminals into a buffer that is not empty gives the caller what the
  -- terminal's mailbox gives, and 0. Any other read gives back the size that was asked for, and -1. In
  -- both cases that size is the one at which the terminals now hand a line on. The sizes are values of
  -- an `int`, and the environment leaves the state.
  pub term_read-read_answer :
      {A : Type 0} (f : ℤ × ℤ → ℕ → User.State.Routine A) (answer : Call → ℤ) (buffer size unit : ℤ)
      (s : State)
      → IsInt size
      → ((e : Call) → IsInt (answer e))
      → settle (λ e t. (answer e, t)) (run_here (bind (term_read m unset buffer size unit psr) f) s)
        ≡ settle
            (λ e t. (answer e, t))
            (run_here
              (f (read_answer answer unit size s) psr)
              (record s { read_buffer_size = size }))
  unfolding term_read
  term_read-read_answer f answer buffer size unit s small small_answers =
      let args = record unset { arg1 = buffer; arg2 = size; arg3 = unit } in
      let on = kernel m number apart u pid text vec unset psr user in
      ap (settle (λ e t. (answer e, t))) (
        through-device-trap on unset m sys_termread args taken f psr s user
        ∙ ap (λ r. bind r (λ res t. run_here (f (taken res) psr) t))
            (kernel-handler_of m number apart u pid text vec unset psr user sys_termread
              our_term_read args s refl))
      ∙ settle-bind-done (λ e t. (answer e, t)) (λ res t. run_here (f (taken res) psr) t)
          (our_term_read args s)
          (record args {
            arg2 = (read_answer answer unit size s).0;
            arg4 = (read_answer answer unit size s).1;
          })
          (record s { read_buffer_size = size }) (our_term_read-settle answer args s)
      ∙ ap
          (λ z.
            settle (λ e t. (answer e, t))
              (run_here (f z psr) (record s { read_buffer_size = size })))
          (cast (is_readable unit size))
    where
      taken : Sysargs → ℤ × ℤ
      taken res = (int_of res.arg2, int_of res.arg4)

      cast :
          (b : Bool)
          → (
            int_of (answer_if answer b (pos_part unit) size s).0,
            int_of (answer_if answer b (pos_part unit) size s).1,
          )
            ≡ answer_if answer b (pos_part unit) size s
      cast true = λ k. (
        int_of-IsInt (answer (mbox_recv_into (s.term_read_mbox (pos_part unit)) size))
            (small_answers _) k,
        int_of-IsInt (pos 0) (omega arith) k,
      )
      cast false = λ k. (int_of-IsInt size small k, int_of-IsInt minus_one (omega arith) k)
