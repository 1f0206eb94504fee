-- ===== src/Phase4/Terminal/Lines.antt =====
-- The line buffer of termMain2 of phase4a/phase4.c.
use process_control.Base.{
  ℕ, zero, suc, ◌<◌, List, [], ◌∷◌, ◌++◌, length, length-append, arith, inl, inr, Bool-cases,
}
use process_control.Base.Int.{ℤ, eqb_ℤ}
use process_control.Base.Run.{Run, done, yields, halted, fault, out_of_fuel, bind}
use process_control.Phase4.State.{State, Call, Routine, Usloss, max_line}
use process_control.Phase4.Terminal.{is_full, hand_on, receive, term_round, term_rounds}

-- A routine that returns with a buffer has room in it, and it never meets undefined behaviour.
abbrev pub KeepsRoom : Run State Call ℤ (List ℕ) → Type 0
KeepsRoom (done buffer s) = length buffer < max_line
KeepsRoom (yields e s k) = (r : ℤ) (t : State) → KeepsRoom (k r t)
KeepsRoom (halted c s) = Unit {0}
KeepsRoom (fault s) = ⊥
KeepsRoom (out_of_fuel s) = ⊥

hand_on-room :
    (unit c : ℕ) (buffer : List ℕ) (s : State)
    → length buffer < max_line
    → KeepsRoom (hand_on unit c (buffer ++ c ∷ []) s)
unfolding hand_on
hand_on-room unit c buffer s h = elim (Bool-cases (is_full c (buffer ++ c ∷ []) s)) [
  | inl e ↦ rw e (λ r t. omega arith)
  | inr e ↦ rw e (ground (arith, length-append buffer (c ∷ [])))
]

receive-room :
    (u : Usloss) (unit : ℕ) (buffer : List ℕ) (status : ℤ) (s : State)
    → length buffer < max_line
    → KeepsRoom (receive u unit buffer status s)
unfolding receive
receive-room u unit buffer status s h = elim (Bool-cases (eqb_ℤ (u.stat_recv status) u.dev_busy)) [
  | inl e ↦ rw e (hand_on-room unit (u.stat_char status) buffer s h)
  | inr e ↦ elim (Bool-cases (eqb_ℤ (u.stat_recv status) u.dev_error)) [
    | inl k ↦ rw (e, k) tt
    | inr k ↦ rw (e, k) h
  ]
]

term_round-room :
    (u : Usloss) (unit : ℕ) (buffer : List ℕ) (s : State)
    → length buffer < max_line
    → KeepsRoom (term_round u unit buffer s)
unfolding term_round
term_round-room u unit buffer s h = λ status t.
    elim (Bool-cases (eqb_ℤ (u.stat_xmit status) u.dev_ready)) [
      | inl e ↦ rw e (λ r v. receive-room u unit buffer status v h)
      | inr e ↦ elim (Bool-cases (eqb_ℤ (u.stat_xmit status) u.dev_error)) [
        | inl k ↦ rw (e, k) tt
        | inr k ↦ rw (e, k) (receive-room u unit buffer status t h)
      ]
    ]

bind-room :
    (r : Routine (List ℕ)) (f : List ℕ → State → Routine (List ℕ))
    → KeepsRoom r
    → ((buffer : List ℕ) (s : State) → length buffer < max_line → KeepsRoom (f buffer s))
    → KeepsRoom (bind r f)
unfolding bind
bind-room (done buffer s) f h k = k buffer s h
bind-room (yields e s c) f h k = λ r t. bind-room (c r t) f (h r t) k
bind-room (halted c s) f h k = tt
bind-room (fault s) f h k = absurd h
bind-room (out_of_fuel s) f h k = absurd h

-- Whatever the terminal reports, and whatever other processes do between the calls, the daemon's
-- line buffer has room for a character at the start of every round: its index is below MAXLINE, so
-- that the character and the zero behind it are written inside the array of MAXLINE + 1.
pub term_rounds-room :
    (rounds : ℕ) (u : Usloss) (unit : ℕ) (buffer : List ℕ) (s : State)
    → length buffer < max_line
    → KeepsRoom (term_rounds rounds u unit buffer s)
unfolding term_rounds
term_rounds-room zero u unit buffer s h = h
term_rounds-room (suc rounds) u unit buffer s h =
    bind-room (term_round u unit buffer s) (term_rounds rounds u unit)
      (term_round-room u unit buffer s h) (term_rounds-room rounds u unit)
