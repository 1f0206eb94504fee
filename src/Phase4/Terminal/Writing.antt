-- ===== src/Phase4/Terminal/Writing.antt =====
-- ourTermWrite of phase4a/phase4.c: a text goes out whole and in order, under the terminal's lock.
use process_control.Base.{
  ℕ, ◌<◌, ◌+◌, ◌*◌, ◌≡◌, refl, ap, ◌∙◌, if◌then◌else◌, Option, none, some, List, [], ◌∷◌, ◌++◌,
  length, lt→ltb, arith,
}
use process_control.Base.Int.{ℤ, pos}
use process_control.Base.Run.{done, fault, bind, settle, calls}
use process_control.Base.Run.Laws.{settle-bind-done, calls-bind-done}
use process_control.Base.Sysargs.{Sysargs}
use process_control.Phase4.State.{State, Call, Routine, control, mbox_send, mbox_recv}
use process_control.Phase4.Terminal.{
  term_unit, char_control, lock_terminal, unlock_terminal, write_char_to_terminal, write_chars,
  our_term_write,
}

-- The characters that a signed `char` shows as they are.
abbrev pub IsAscii : List ℕ → Type 0
IsAscii [] = Unit {0}
IsAscii (c ∷ text) = (c < 128) × IsAscii text

-- Before each character the writer waits for the transmitter. The control word has the character in
-- bits 8 to 14 and the bits 0, 1 and 2 set.
abbrev pub char_calls : ℤ → ℕ → List ℕ → List Call
char_calls ready unit [] = []
char_calls ready unit (c ∷ text) =
    mbox_recv ready ∷ control (pos unit) (pos (c * 256 + 7)) ∷ char_calls ready unit text

module _ (answer : Call → ℤ) (unit : ℕ) where
  abbrev env : Call → State → ℤ × State
  env e t = (answer e, t)

  char_control-word : (c : ℕ) → c < 128 → char_control c ≡ pos (c * 256 + 7)
  char_control-word c h = ground arith

  write_chars-calls :
      (text : List ℕ) (s : State)
      → IsAscii text
      → (settle env (write_chars text unit s) ≡ done tt s)
        × (calls env (write_chars text unit s) ≡ char_calls (s.term_write_mbox unit) unit text)
  unfolding write_chars write_char_to_terminal bind settle calls
  write_chars-calls [] s plain = (refl, refl)
  write_chars-calls (c ∷ text) s plain =
      let (ends, rest) = write_chars-calls text s plain.1 in
      let ready = mbox_recv (s.term_write_mbox unit) in
      (
        ends,
        ap (λ es. ready ∷ control (pos unit) (char_control c) ∷ es) rest
            ∙ ap (λ k. ready ∷ control (pos unit) k ∷ char_calls (s.term_write_mbox unit) unit text)
                (char_control-word c plain.0),
      )

-- A write of a text of characters below 128 to one of the four terminals takes the terminal's lock,
-- sends the characters one by one up to the end of the string, each once the transmitter is ready and
-- with the bits 0 to 2 below it, gives the lock back, and answers the length of the string and 0,
-- whatever size was asked for. The environment leaves the state.
pub our_term_write-chars :
    (answer : Call → ℤ) (unit : ℕ) (text : List ℕ) (args : Sysargs) (s : State)
    → args.arg3 ≡ pos unit
    → unit < 4
    → IsAscii text
    → (calls (λ e t. (answer e, t)) (our_term_write text args s)
        ≡ mbox_send (s.term_lock_mbox unit) ∷ char_calls (s.term_write_mbox unit) unit text
          ++ mbox_recv (s.term_lock_mbox unit) ∷ [])
      × (settle (λ e t. (answer e, t)) (our_term_write text args s)
          ≡ done (record args { arg4 = pos 0; arg2 = pos (length text) }) s)
unfolding our_term_write bind settle calls
our_term_write-chars answer unit text args s index within plain =
    let known =
      ap term_unit index ∙ ap (λ b. if b then some unit else none) (lt→ltb unit 4 within) in
    let (ends, chars) = write_chars-calls answer unit text s plain in
    (
      ap (λ o. calls (λ e t. (answer e, t)) (body o)) known
          ∙ ap (λ es. mbox_send (s.term_lock_mbox unit) ∷ es)
              (calls-bind-done (λ e t. (answer e, t)) (λ _ v. unlocked unit v)
                  (write_chars text unit s) tt s ends
                ∙ ap (λ es. es ++ mbox_recv (s.term_lock_mbox unit) ∷ []) chars),
      ap (λ o. settle (λ e t. (answer e, t)) (body o)) known
          ∙ settle-bind-done (λ e t. (answer e, t)) (λ _ v. unlocked unit v)
              (write_chars text unit s) tt s ends,
    )
  where
    unlocked : ℕ → State → Routine Sysargs
    unlocked unit v =
        bind (unlock_terminal unit v)
          (λ _ w. done (record args { arg4 = pos 0; arg2 = pos (length text) }) w)

    body : Option ℕ → Routine Sysargs
    body none = fault s
    body (some unit) =
        bind (lock_terminal unit s) (λ _ t. bind (write_chars text unit t) (λ _ v. unlocked unit v))
