-- ===== src/Phase3/Semaphore/Creation.antt =====
-- kernSemCreate of phase3/phase3.c: the number it answers is the entry it filled.
use process_control.Base.{
  ℕ, zero, suc, ◌+◌, ◌<◌, ◌≤◌, ◌==◌, if◌then◌else◌, ◌≡◌, ◌≢◌, refl, ap, ◌∙◌, Bool, true, false,
  ◌||◌, none, some, inl, inr, arith, update, update_ne, Bool-cases, ==→eq, ==→ne,
}
use process_control.Base.Int.{ℤ, pos, minus_one, is_neg, ◌+ℤ◌, eqb_ℤ}
use process_control.Base.Run.{done, settle}
use process_control.Base.Sysargs.{Sysargs}
use process_control.Phase3.State.{Semaphore, State, Answer, Routine, max_sems, put_semaphore}
use process_control.Phase3.Semaphore.{open_semaphore, sem_create, kern_sem_create}

-- The entries below the counter have a mailbox, those from it on have none.
pub record IsFilled (s : State) : Type 0 where
  pub below : (j : ℕ) → j < s.sem_counter → eqb_ℤ (s.semaphore_table j).mbox_id (pos 0) ≡ false
  pub above : (j : ℕ) → s.sem_counter ≤ j → eqb_ℤ (s.semaphore_table j).mbox_id (pos 0) ≡ true

open_semaphore-first :
    (rounds i n : ℕ) (table : ℕ → Semaphore)
    → ((j : ℕ) → j < n → eqb_ℤ (table j).mbox_id (pos 0) ≡ false)
    → eqb_ℤ (table n).mbox_id (pos 0) ≡ true
    → i ≤ n
    → n < i + rounds
    → open_semaphore rounds table i ≡ some n
unfolding open_semaphore
open_semaphore-first zero i n table below free l h = absurd (omega arith)
open_semaphore-first (suc rounds) i n table below free l h = elim (Bool-cases (i == n)) [
  | inl e ↦
      let here : i ≡ n = ==→eq i n e in
      ap (λ b. if b then some i else open_semaphore rounds table (i + 1))
        (ap (λ k. eqb_ℤ (table k).mbox_id (pos 0)) here ∙ free)
      ∙ ap some here
  | inr e ↦
      let ne : i ≢ n = ==→ne i n e in
      ap (λ b. if b then some i else open_semaphore rounds table (i + 1)) (below i (omega arith))
      ∙ open_semaphore-first rounds (i + 1) n table below free (omega arith) (omega arith)
]

-- A new semaphore, in a table that is filled up to its counter and not full.
abbrev pub created : ℤ → ℤ → State → State
created id val s =
    record (put_semaphore s.sem_counter
      (record { sem_id = s.sem_counter; mbox_id = id; value = val }) s) {
        sem_counter = s.sem_counter + 1;
      }

pub sem_create-created :
    (id val : ℤ) (s : State)
    → IsFilled s
    → s.sem_counter < max_sems
    → sem_create id val s ≡ (true, created id val s)
unfolding sem_create
sem_create-created id val s f h =
    ap
      (λ o. elim o [
        | none ↦ (false, s)
        | some i ↦ (
          true,
          record (put_semaphore i (record { sem_id = i; mbox_id = id; value = val }) s) {
            sem_counter = s.sem_counter + 1;
          },
        )
      ])
      (open_semaphore-first max_sems 0 s.sem_counter s.semaphore_table f.below
        (f.above s.sem_counter (omega arith)) (omega arith) (omega arith))

created-IsFilled :
    (id val : ℤ) (s : State) → IsFilled s → eqb_ℤ id (pos 0) ≡ false → IsFilled (created id val s)
created-IsFilled id val s f used = record {
  below = λ j h. elim (Bool-cases (s.sem_counter == j)) [
    | inl e ↦ ap no_mailbox (update_at j e) ∙ used
    | inr e ↦
        ap no_mailbox (update_ne s.semaphore_table entry (==→ne s.sem_counter j e))
        ∙ f.below j (lower j h (==→ne s.sem_counter j e))
  ];
  above = λ j h.
      ap no_mailbox (update_ne s.semaphore_table entry (λ e. absurd (omega arith)))
      ∙ f.above j (omega arith);
}
  where
    no_mailbox : Semaphore → Bool
    no_mailbox x = eqb_ℤ x.mbox_id (pos 0)

    entry : Semaphore
    entry = record { sem_id = s.sem_counter; mbox_id = id; value = val }

    update_at :
        (j : ℕ)
        → (s.sem_counter == j) ≡ true
        → update s.semaphore_table s.sem_counter entry j ≡ entry
    update_at j e = ap (λ b. if b then entry else s.semaphore_table j) e

    lower : (j : ℕ) → j < s.sem_counter + 1 → s.sem_counter ≢ j → j < s.sem_counter
    lower j h ne = omega arith

module _ (left_over : ℤ) (args : Sysargs) (s : State) (answer : Answer) (filled : IsFilled s)
    (room : s.sem_counter < max_sems) (mailbox : eqb_ℤ answer.result (pos 0) ≡ false) where
  end_of_create : Bool × State → Routine Sysargs
  end_of_create made =
      if eqb_ℤ (if made.0 then left_over else minus_one) minus_one || is_neg args.arg1
      then done (record args { arg4 = minus_one; arg1 = pos 0 }) made.1
      else done (record args { arg4 = pos 0; arg1 = pos (made.1).sem_counter +ℤ minus_one }) made.1

  -- A semaphore with a value that is not negative, in a table filled up to its counter and not
  -- full, takes the next entry, and the number that the system call answers is this entry's; the
  -- table is filled up to its counter again. The environment gives a mailbox that is not 0 and
  -- leaves the state, and semCreate does not happen to leave -1 where its result is read.
  pub kern_sem_create-created :
      eqb_ℤ left_over minus_one ≡ false
      → is_neg args.arg1 ≡ false
      → (settle (λ e t. (answer, t)) (kern_sem_create left_over args s)
          ≡ done
              (record args { arg4 = pos 0; arg1 = pos s.sem_counter })
              (created answer.result args.arg1 s))
        × IsFilled (created answer.result args.arg1 s)
  unfolding kern_sem_create settle end_of_create
  kern_sem_create-created luck sign =
      let t = created answer.result args.arg1 s in
      (
        ap (λ m. settle (λ e t. (answer, t)) (end_of_create m))
              (sem_create-created answer.result args.arg1 s filled room)
            ∙ ap
                (λ b.
                  settle (λ e t. (answer, t))
                    (if b || is_neg args.arg1
                      then done (record args { arg4 = minus_one; arg1 = pos 0 }) t
                      else done
                          (record args { arg4 = pos 0; arg1 = pos t.sem_counter +ℤ minus_one }) t))
                luck
            ∙ ap
                (λ b.
                  settle (λ e t. (answer, t))
                    (if b
                      then done (record args { arg4 = minus_one; arg1 = pos 0 }) t
                      else done
                          (record args { arg4 = pos 0; arg1 = pos t.sem_counter +ℤ minus_one }) t))
                sign
            ∙ ap (λ k. done (record args { arg4 = pos 0; arg1 = k }) t) (back s.sem_counter),
        created-IsFilled answer.result args.arg1 s filled mailbox,
      )
    where
      back : (n : ℕ) → pos (n + 1) +ℤ minus_one ≡ pos n
      back n = ground arith

  -- With a negative value the system call fails, and the entry is taken all the same. The
  -- environment gives a mailbox that is not 0 and leaves the state.
  pub kern_sem_create-negative :
      is_neg args.arg1 ≡ true
      → (settle (λ e t. (answer, t)) (kern_sem_create left_over args s)
          ≡ done
              (record args { arg4 = minus_one; arg1 = pos 0 })
              (created answer.result args.arg1 s))
        × IsFilled (created answer.result args.arg1 s)
  unfolding kern_sem_create settle end_of_create
  kern_sem_create-negative sign =
      let t = created answer.result args.arg1 s in
      (
        ap (λ m. settle (λ e t. (answer, t)) (end_of_create m))
              (sem_create-created answer.result args.arg1 s filled room)
            ∙ ap
                (λ b.
                  settle (λ e t. (answer, t))
                    (if eqb_ℤ left_over minus_one || b
                      then done (record args { arg4 = minus_one; arg1 = pos 0 }) t
                      else done
                          (record args { arg4 = pos 0; arg1 = pos t.sem_counter +ℤ minus_one }) t))
                sign
            ∙ ap
                (λ b.
                  settle (λ e t. (answer, t))
                    (if b
                      then done (record args { arg4 = minus_one; arg1 = pos 0 }) t
                      else done
                          (record args { arg4 = pos 0; arg1 = pos t.sem_counter +ℤ minus_one }) t))
                (or-true (eqb_ℤ left_over minus_one)),
        created-IsFilled answer.result args.arg1 s filled mailbox,
      )
    where
      or-true : (b : Bool) → b || true ≡ true
      or-true true = refl
      or-true false = refl
