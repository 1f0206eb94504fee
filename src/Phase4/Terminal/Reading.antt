-- ===== src/Phase4/Terminal/Reading.antt =====
-- A line that is typed at a terminal, through termMain2 of phase4a/phase4.c.
use process_control.Base.{
  ℕ, suc, ◌+◌, ◌<◌, ◌==◌, if◌then◌else◌, ◌≡◌, ◌≢◌, refl, ap, ◌∙◌, Bool, true, false, ◌||◌, Option,
  some, List, [], ◌∷◌, ◌++◌, length, length-append, arith, ne→==, eq→==,
}
use process_control.Base.Int.{ℤ, pos, negsuc, is_neg, eqb_ℤ}
use process_control.Base.Run.{done, yields, halted, bind}
use process_control.Base.Run.Laws.{called, replay}
use process_control.Phase4.State.{
  State, Call, Routine, Usloss, max_line, term_dev, wait_device, mbox_cond_send,
}
use process_control.Phase4.Terminal.{is_full, hand_on, receive, term_round, term_rounds, newline}

-- A status with a character, while the transmitter neither is ready nor reports an error.
pub record Delivers (u : Usloss) (status : ℤ) : Type 0 where
  pub receives : eqb_ℤ (u.stat_recv status) u.dev_busy ≡ true
  pub not_ready : eqb_ℤ (u.stat_xmit status) u.dev_ready ≡ false
  pub not_wrong : eqb_ℤ (u.stat_xmit status) u.dev_error ≡ false

-- Interrupts of a terminal, each with its status and the state that the daemon finds then: they bring
-- characters of a line, and no reader has asked for a size.
abbrev pub Plain : Usloss → List (ℤ × State) → Type 0
Plain u [] = Unit {0}
Plain u ((status, t) ∷ rest) =
    Delivers u status
    × (u.stat_char status ≢ newline)
    × (is_neg t.read_buffer_size ≡ true)
    × Plain u rest

abbrev pub characters : Usloss → List (ℤ × State) → List ℕ
characters u [] = []
characters u ((status, t) ∷ rest) = u.stat_char status ∷ characters u rest

-- One wait for each of the interrupts, and one for the newline.
abbrev pub waits : ℕ → List (ℤ × State) → List Call
waits unit [] = wait_device term_dev unit ∷ []
waits unit (x ∷ rest) = wait_device term_dev unit ∷ waits unit rest

-- As many rounds, and some more.
abbrev pub line_rounds : List (ℤ × State) → ℕ → ℕ
line_rounds [] later = suc later
line_rounds (x ∷ rest) later = suc (line_rounds rest later)

module _ (u : Usloss) (unit : ℕ) where
  handed : Bool → List ℕ → State → Routine (List ℕ)
  handed b line t =
      if b
      then yields (mbox_cond_send (t.term_read_mbox unit) line) t (λ _ v. done [] v)
      else done line t

  -- One round, up to what becomes of the line.
  round-line :
      (rounds : ℕ) (buffer : List ℕ) (s : State) (status : ℤ) (t : State) (full : Bool)
      (rest : List (ℤ × State))
      → Delivers u status
      → is_full (u.stat_char status) (buffer ++ u.stat_char status ∷ []) t ≡ full
      → replay ((status, t) ∷ rest) (term_rounds (suc rounds) u unit buffer s)
        ≡ called (wait_device term_dev unit) (
            replay rest (
              bind (handed full (buffer ++ u.stat_char status ∷ []) t) (term_rounds rounds u unit)))
  unfolding term_rounds term_round receive hand_on bind replay handed
  round-line rounds buffer s status t full rest d e =
      let c = u.stat_char status in
      ap
        (λ b. behind (
          if b
          then yields (mbox_cond_send (t.term_write_mbox unit) []) t
              (λ _ v. receive u unit buffer status v)
          else if eqb_ℤ (u.stat_xmit status) u.dev_error
          then halted (pos 1) t
          else receive u unit buffer status t))
        d.not_ready
      ∙ ap (λ b. behind (if b then halted (pos 1) t else receive u unit buffer status t))
          d.not_wrong
      ∙ ap
          (λ b. behind (
            if b
            then hand_on unit c (buffer ++ c ∷ []) t
            else if eqb_ℤ (u.stat_recv status) u.dev_error
            then halted (pos 1) t
            else done buffer t))
          d.receives
      ∙ ap (λ b. behind (handed b (buffer ++ c ∷ []) t)) e
    where
      behind : Routine (List ℕ) → Option (List Call × Routine (List ℕ))
      behind r =
          called (wait_device term_dev unit) (replay rest (bind r (term_rounds rounds u unit)))

  negative : (n : ℕ) (size : ℤ) → is_neg size ≡ true → eqb_ℤ (pos n) size ≡ false
  negative n (pos m) e = cc
  negative n (negsuc m) e = ground arith

  kept :
      (c : ℕ) (line : List ℕ) (s : State)
      → c ≢ newline
      → length line < max_line
      → is_neg s.read_buffer_size ≡ true
      → is_full c line s ≡ false
  kept c line s ne short no_reader =
      ap (λ b. b || (length line == max_line) || eqb_ℤ (pos (length line)) s.read_buffer_size)
        (ne→== c newline ne)
      ∙ ap (λ b. b || eqb_ℤ (pos (length line)) s.read_buffer_size)
          (ne→== (length line) max_line (λ e. absurd (omega arith)))
      ∙ negative (length line) s.read_buffer_size no_reader

  append-one : (xs : List ℕ) (c : ℕ) (ys : List ℕ) → (xs ++ c ∷ []) ++ ys ≡ xs ++ c ∷ ys
  append-one [] c ys = refl
  append-one (x ∷ xs) c ys = ap (λ k. x ∷ k) (append-one xs c ys)

  -- The daemon that holds the line, in the state at the newline, and goes on with an empty buffer.
  abbrev pub hands_over : List ℕ → State → ℕ → Routine (List ℕ)
  hands_over line v later =
      yields (mbox_cond_send (v.term_read_mbox unit) line) v (λ _ w. term_rounds later u unit [] w)

  -- Interrupts that bring characters other than a newline, few enough for the buffer with what is in
  -- it, while no reader has asked for a size, and then one that brings a newline: whatever the other
  -- processes make of the state in between, the daemon waits for each of them and calls nothing else,
  -- then hands on what was in the buffer, the characters in their order and the newline in one message,
  -- and goes on with an empty buffer. The transmitter neither is ready nor reports an error meanwhile.
  pub term_rounds-line :
      (typed : List (ℤ × State)) (last : ℤ) (v : State) (later : ℕ) (buffer : List ℕ) (s : State)
      → Plain u typed
      → Delivers u last
      → u.stat_char last ≡ newline
      → length buffer + length typed < max_line
      → replay (typed ++ (last, v) ∷ []) (term_rounds (line_rounds typed later) u unit buffer s)
        ≡ some
            (waits unit typed, hands_over (buffer ++ (characters u typed ++ newline ∷ [])) v later)
  unfolding replay handed bind
  term_rounds-line [] last v later buffer s plain ends end short =
      let c = u.stat_char last in
      let line = buffer ++ c ∷ [] in
      let full : is_full c line v ≡ true =
        ap (λ b. b || (length line == max_line) || eqb_ℤ (pos (length line)) v.read_buffer_size)
          (eq→== c newline end) in
      round-line later buffer s last v true [] ends full
      ∙ ap (λ k. some (wait_device term_dev unit ∷ [], hands_over (buffer ++ k ∷ []) v later)) end
  term_rounds-line ((status, t) ∷ typed) last v later buffer s plain ends end short =
      let c = u.stat_char status in
      let line = buffer ++ c ∷ [] in
      let longer : length line ≡ length buffer + 1 = length-append buffer (c ∷ []) in
      round-line (line_rounds typed later) buffer s status t false (typed ++ (last, v) ∷ []) plain.0
        (kept c line t plain.1 (omega arith) plain.2)
      ∙ ap (called (wait_device term_dev unit)) (
          term_rounds-line typed last v later line t plain.3 ends end (omega arith)
          ∙ ap (λ k. some (waits unit typed, hands_over k v later))
              (append-one buffer c (characters u typed ++ newline ∷ [])))
