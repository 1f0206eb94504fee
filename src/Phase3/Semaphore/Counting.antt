-- ===== src/Phase3/Semaphore/Counting.antt =====
-- kernSemP and kernSemV of phase3/phase3.c against a counting semaphore.
use process_control.Base.{
  ℕ, zero, suc, ◌+◌, ◌-◌, ◌<◌, ◌==◌, if◌then◌else◌, ◌≡◌, refl, ap, ◌∙◌, Bool, true, false, not, ◌⊎◌,
  inl, inr, none, some, arith, lt→ltb, update_self,
}
use process_control.Base.Int.{ℤ, pos, minus_one, is_neg, sub_ℕ, ◌+ℤ◌, ltb_ℤ, eqb_ℤ}
use process_control.Base.Run.{done, yields, fault, settle}
use process_control.Base.Sysargs.{Sysargs}
use process_control.Phase3.State.{State, Answer, Routine, max_sems, mbox_send, mbox_recv}
use process_control.Phase3.Semaphore.{sem_index, add_value, settle_call, kern_sem_p, kern_sem_v}

-- The abstract semaphore: what may still be taken, and how many wait; not both at once.
pub record Counter : Type 0 where
  pub count : ℕ
  pub waiting : ℕ

abbrev pub IsSettled : Counter → Type 0
IsSettled c = (c.count ≡ 0) ⊎ (c.waiting ≡ 0)

-- Whether the caller has to wait, and the semaphore behind.
abbrev pub acquire : Counter → Bool × Counter
acquire c =
    if c.count == 0
    then (true, record c { waiting = c.waiting + 1 })
    else (false, record c { count = c.count - 1 })

-- Whether one that waits is woken, and the semaphore behind.
abbrev pub release : Counter → Bool × Counter
release c =
    if c.waiting == 0
    then (false, record c { count = c.count + 1 })
    else (true, record c { waiting = c.waiting - 1 })

-- The `value` that stands for an abstract semaphore.
abbrev pub value_of : Counter → ℤ
value_of c = sub_ℕ c.count c.waiting

-- An entry of the table that stands for an abstract semaphore.
abbrev pub Refines : State → ℕ → Counter → Type 0
Refines s i c = ((s.semaphore_table i).value ≡ value_of c) × IsSettled c

acquire-value :
    (n w : ℕ)
    → (n ≡ 0) ⊎ (w ≡ 0)
    → (is_neg (sub_ℕ n w +ℤ minus_one) ≡ (acquire (record { count = n; waiting = w })).0)
      × (sub_ℕ n w +ℤ minus_one ≡ value_of (acquire (record { count = n; waiting = w })).1)
acquire-value zero zero h = (refl, refl)
acquire-value zero (suc w) h = (ground arith, ground arith)
acquire-value (suc n) zero h = (ground arith, ground arith)
acquire-value (suc n) (suc w) (inl e) = absurd (omega arith)
acquire-value (suc n) (suc w) (inr e) = absurd (omega arith)

release-value :
    (n w : ℕ)
    → (n ≡ 0) ⊎ (w ≡ 0)
    → (ltb_ℤ (pos 0) (sub_ℕ n w +ℤ pos 1) ≡ not (release (record { count = n; waiting = w })).0)
      × (sub_ℕ n w +ℤ pos 1 ≡ value_of (release (record { count = n; waiting = w })).1)
release-value zero zero h = (refl, refl)
release-value zero (suc w) h = (ground arith, ground arith)
release-value (suc n) zero h = (ground arith, ground arith)
release-value (suc n) (suc w) (inl e) = absurd (omega arith)
release-value (suc n) (suc w) (inr e) = absurd (omega arith)

module _ (args : Sysargs) (s : State) (i : ℕ) (c : Counter) (index : args.arg1 ≡ pos i)
    (within : i < max_sems) (stands : Refines s i c) where
  sem_index-some : sem_index args.arg1 ≡ some i
  sem_index-some =
      ap sem_index index ∙ ap (λ b. if b then some i else none) (lt→ltb i max_sems within)

  new_value : (d : ℤ) → ((add_value i d s).semaphore_table i).value ≡ value_of c +ℤ d
  new_value d = ap (λ x. x.value) (update_self s.semaphore_table i _) ∙ ap (λ k. k +ℤ d) stands.0

  -- P on a semaphore of the table, whose value stands for a count or for a number of processes
  -- that wait, takes from the count if there is one, and otherwise adds the caller to those that
  -- wait and receives from the mailbox; the new value stands for the semaphore behind.
  pub kern_sem_p-acquire :
      let t = add_value i minus_one s in
      (kern_sem_p args s ≡ (
        if (acquire c).0
        then yields (mbox_recv (s.semaphore_table i).mbox_id) t (settle_call i (pos 1) args)
        else done (record args { arg4 = pos 0 }) t))
      × ((t.semaphore_table i).value ≡ value_of (acquire c).1)
  unfolding kern_sem_p
  kern_sem_p-acquire =
      let t = add_value i minus_one s in
      let (blocks, behind) = acquire-value c.count c.waiting stands.1 in
      let answered = done (record args { arg4 = pos 0 }) t in
      let wait = yields (mbox_recv (s.semaphore_table i).mbox_id) t (settle_call i (pos 1) args) in
      (
        ap (λ o. elim o [ none ↦ fault s | some k ↦ p_at k ]) sem_index-some
            ∙ ap (λ b. if b then wait else answered) (ap is_neg (new_value minus_one) ∙ blocks),
        new_value minus_one ∙ behind,
      )
    where
      p_at : ℕ → Routine Sysargs
      p_at k =
          let t = add_value k minus_one s in
          if is_neg (t.semaphore_table k).value
          then yields (mbox_recv (s.semaphore_table k).mbox_id) t (settle_call k (pos 1) args)
          else done (record args { arg4 = pos 0 }) t

  -- V on a semaphore of the table, whose value stands for a count or for a number of processes
  -- that wait, sends to the mailbox, for one that waits, if there is one, and otherwise adds to
  -- the count; the new value stands for the semaphore behind.
  pub kern_sem_v-release :
      let t = add_value i (pos 1) s in
      (kern_sem_v args s ≡ (
        if (release c).0
        then yields (mbox_send (s.semaphore_table i).mbox_id) t (settle_call i minus_one args)
        else done (record args { arg4 = pos 0 }) t))
      × ((t.semaphore_table i).value ≡ value_of (release c).1)
  unfolding kern_sem_v
  kern_sem_v-release =
      let t = add_value i (pos 1) s in
      let (wakes, behind) = release-value c.count c.waiting stands.1 in
      let answered = done (record args { arg4 = pos 0 }) t in
      let wake =
        yields (mbox_send (s.semaphore_table i).mbox_id) t (settle_call i minus_one args) in
      (
        ap (λ o. elim o [ none ↦ fault s | some k ↦ v_at k ]) sem_index-some
            ∙ ap (λ b. if b then answered else wake)
                (ap (ltb_ℤ (pos 0)) (new_value (pos 1)) ∙ wakes)
            ∙ if-not (release c).0 answered wake,
        new_value (pos 1) ∙ behind,
      )
    where
      v_at : ℕ → Routine Sysargs
      v_at k =
          let t = add_value k (pos 1) s in
          if ltb_ℤ (pos 0) (t.semaphore_table k).value
          then done (record args { arg4 = pos 0 }) t
          else yields (mbox_send (s.semaphore_table k).mbox_id) t (settle_call k minus_one args)

      if-not : (b : Bool) (x y : Routine Sysargs) → (if not b then x else y) ≡ (if b then y else x)
      if-not true x y = refl
      if-not false x y = refl

  -- Behind a call that failed, for an environment that leaves the state.
  settle-failed :
      (there back : ℤ) (answer : Answer)
      → answer.result ≡ minus_one
      → value_of c +ℤ there +ℤ back ≡ value_of c
      → (u : State) × (settle
            (λ e t. (answer, t))
            (settle_call i back args answer (add_value i there s))
          ≡ done (record args { arg4 = minus_one }) u)
        × ((u.semaphore_table i).value ≡ value_of c)
  unfolding settle
  settle-failed there back answer fails undo =
      let t = add_value i there s in
      let u = add_value i back t in
      (
        u,
        ap
            (λ b.
              settle (λ e t. (answer, t))
                (if b
                  then done (record args { arg4 = minus_one }) u
                  else done (record args { arg4 = pos 0 }) t))
            (ap (λ z. eqb_ℤ z minus_one) fails),
        ap (λ x. x.value) (update_self t.semaphore_table i _)
            ∙ ap (λ k. k +ℤ back) (new_value there)
            ∙ undo,
      )

  -- P on a semaphore without a count, whose receive fails with -1 in an environment that leaves the
  -- state, answers -1 and leaves the value as it was.
  pub kern_sem_p-failed :
      (answer : Answer)
      → c.count ≡ 0
      → answer.result ≡ minus_one
      → (u : State) × (settle (λ e t. (answer, t)) (kern_sem_p args s)
          ≡ done (record args { arg4 = minus_one }) u)
        × ((u.semaphore_table i).value ≡ value_of c)
  unfolding settle
  kern_sem_p-failed answer none_left fails =
      let t = add_value i minus_one s in
      let wait = yields (mbox_recv (s.semaphore_table i).mbox_id) t (settle_call i (pos 1) args) in
      let blocks : (acquire c).0 ≡ true = ground arith in
      let (u, e, v) =
        settle-failed minus_one (pos 1) answer fails (undo c.count c.waiting none_left) in
      (
        u,
        ap (settle (λ e t. (answer, t))) (
              kern_sem_p-acquire.0
              ∙ ap (λ b. if b then wait else done (record args { arg4 = pos 0 }) t) blocks)
            ∙ e,
        v,
      )
    where
      undo : (n w : ℕ) → n ≡ 0 → sub_ℕ n w +ℤ minus_one +ℤ pos 1 ≡ sub_ℕ n w
      undo n zero h = rw h refl
      undo n (suc w) h = rw h (ground arith)

  -- V on a semaphore with waiting processes, whose send fails with -1 in an environment that
  -- leaves the state, answers -1 and leaves the value as it was.
  pub kern_sem_v-failed :
      (answer : Answer)
      → 0 < c.waiting
      → c.count ≡ 0
      → answer.result ≡ minus_one
      → (u : State) × (settle (λ e t. (answer, t)) (kern_sem_v args s)
          ≡ done (record args { arg4 = minus_one }) u)
        × ((u.semaphore_table i).value ≡ value_of c)
  unfolding settle
  kern_sem_v-failed answer some_wait none_left fails =
      let t = add_value i (pos 1) s in
      let wake =
        yields (mbox_send (s.semaphore_table i).mbox_id) t (settle_call i minus_one args) in
      let wakes : (release c).0 ≡ true = ground arith in
      let (u, e, v) =
        settle-failed (pos 1) minus_one answer fails (undo c.count c.waiting none_left some_wait) in
      (
        u,
        ap (settle (λ e t. (answer, t))) (
              kern_sem_v-release.0
              ∙ ap (λ b. if b then wake else done (record args { arg4 = pos 0 }) t) wakes)
            ∙ e,
        v,
      )
    where
      undo : (n w : ℕ) → n ≡ 0 → 0 < w → sub_ℕ n w +ℤ pos 1 +ℤ minus_one ≡ sub_ℕ n w
      undo n zero h p = absurd (omega arith)
      undo n (suc w) h p = rw h (ground arith)
