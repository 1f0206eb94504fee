-- ===== src/Phase4/Terminal.antt =====
-- The terminals: termMain2, lockTerminal, unlockTerminal, writeCharToTerminal, ourTermWrite and
-- ourTermRead of phase4a/phase4.c.
pub mod Lines
pub mod Reading
pub mod Writing
use process_control.Base.{
  ℕ, zero, suc, ◌+◌, ◌*◌, ltb, ◌==◌, if◌then◌else◌, Bool, ◌||◌, Option, none, some, List, [], ◌∷◌,
  ◌++◌, length,
}
use process_control.Base.Int.{ℤ, pos, negsuc, minus_one, eqb_ℤ, ltb_ℤ, sub_ℕ}
use process_control.Base.Run.{done, yields, halted, fault, bind}
use process_control.Base.Sysargs.{Sysargs}
use process_control.Phase4.State.{
  State, Routine, Usloss, term_dev, max_line, wait_device, control, mbox_send, mbox_recv,
  mbox_recv_into, mbox_cond_send,
}

-- `'\n'`.
abbrev pub newline : ℕ
newline = 10

-- The line is handed on when it ends, when the buffer is full, or at the size that a reader asked
-- for last.
abbrev pub is_full : ℕ → List ℕ → State → Bool
is_full character buffer s =
    (character == newline)
    || (length buffer == max_line)
    || eqb_ℤ (pos (length buffer)) s.read_buffer_size

-- The line, which ends with the character, is handed on or kept.
unfoldable pub hand_on : ℕ → ℕ → List ℕ → State → Routine (List ℕ)
hand_on unit character line s =
    if is_full character line s
    then yields (mbox_cond_send (s.term_read_mbox unit) line) s (λ _ t. done [] t)
    else done line s

-- Behind the transmitter: the buffer, which is `buffer[0 .. bufferIndex]`, takes a character.
unfoldable pub receive : Usloss → ℕ → List ℕ → ℤ → State → Routine (List ℕ)
unfolding hand_on
receive u unit buffer status s =
    if eqb_ℤ (u.stat_recv status) u.dev_busy
    then hand_on unit (u.stat_char status) (buffer ++ u.stat_char status ∷ []) s
    else if eqb_ℤ (u.stat_recv status) u.dev_error
    then halted (pos 1) s
    else done buffer s

-- One round of `while (1)`, for one of the four terminals.
unfoldable pub term_round : Usloss → ℕ → List ℕ → State → Routine (List ℕ)
unfolding receive
term_round u unit buffer s = yields (wait_device term_dev unit) s (λ status t.
    if eqb_ℤ (u.stat_xmit status) u.dev_ready
    then yields (mbox_cond_send (t.term_write_mbox unit) []) t
        (λ _ v. receive u unit buffer status v)
    else if eqb_ℤ (u.stat_xmit status) u.dev_error
    then halted (pos 1) t
    else receive u unit buffer status t)

unfoldable pub term_rounds : ℕ → Usloss → ℕ → List ℕ → State → Routine (List ℕ)
unfolding term_round bind
term_rounds zero u unit buffer s = done buffer s
term_rounds (suc rounds) u unit buffer s =
    bind (term_round u unit buffer s) (term_rounds rounds u unit)

-- A unit of a terminal; the source does not check the one of a write.
abbrev pub term_unit : ℤ → Option ℕ
term_unit (pos n) = if ltb n 4 then some n else none
term_unit (negsuc n) = none

abbrev pub lock_terminal : ℕ → State → Routine (Unit {0})
lock_terminal unit s = yields (mbox_send (s.term_lock_mbox unit)) s (λ _ t. done tt t)

abbrev pub unlock_terminal : ℕ → State → Routine (Unit {0})
unlock_terminal unit s = yields (mbox_recv (s.term_lock_mbox unit)) s (λ _ t. done tt t)

-- Bits 0 to 2, and the character, a byte that is read as a signed `char`, above bit 8: from 128 on it
-- stands for `character - 256`.
abbrev pub char_control : ℕ → ℤ
char_control character =
    if ltb character 128 then pos (7 + character * 256) else sub_ℕ (7 + character * 256) 65536

unfoldable pub write_char_to_terminal : ℕ → ℕ → State → Routine (Unit {0})
write_char_to_terminal character unit s =
    yields (control (pos unit) (char_control character)) s (λ _ t. done tt t)

-- Every character waits for the transmitter.
unfoldable pub write_chars : List ℕ → ℕ → State → Routine (Unit {0})
unfolding write_char_to_terminal bind
write_chars [] unit s = done tt s
write_chars (c ∷ text) unit s =
    yields (mbox_recv (s.term_write_mbox unit)) s
      (λ _ t. bind (write_char_to_terminal c unit t) (λ _ v. write_chars text unit v))

-- `text` is the string at `arg1`, up to its final zero.
unfoldable pub our_term_write : List ℕ → Sysargs → State → Routine Sysargs
unfolding write_chars bind
our_term_write text args s = elim (term_unit args.arg3) [
  | none ↦ fault s
  | some unit ↦ bind (lock_terminal unit s) (λ _ t. bind (write_chars text unit t) (λ _ v.
      bind (unlock_terminal unit v)
        (λ _ w. done (record args { arg4 = pos 0; arg2 = pos (length text) }) w)))
]

-- The size is kept before it is checked. The caller's buffer is taken to have room for it, so that
-- `memset` clears it and the receive fills it.
unfoldable pub our_term_read : Sysargs → State → Routine Sysargs
our_term_read args s =
    let t = record s { read_buffer_size = args.arg2 } in
    elim (term_unit args.arg3) [
      | none ↦ done (record args { arg4 = minus_one }) t
      | some unit ↦
          if ltb_ℤ (pos 0) args.arg2
          then yields (mbox_recv_into (t.term_read_mbox unit) args.arg2) t
              (λ size v. done (record args { arg2 = size; arg4 = pos 0 }) v)
          else done (record args { arg4 = minus_one }) t
    ]
