-- ===== src/User/Semaphores.antt =====
-- SemCreate, SemP and SemV from user mode down to the semaphore table.
use process_control.Base.{
  ℕ, suc, ◌<◌, ◌≡◌, if◌then◌else◌, [], ◌∷◌, ◌++◌, Bool, true, refl, ap, ◌∙◌, Option, none, some,
  false, inr, arith, update_self,
}
use process_control.Base.Int.{ℤ, pos, ◌+ℤ◌, minus_one, eqb_ℤ}
use process_control.Base.Run.{done, yields, fault, bind, settle, calls}
use process_control.Base.Run.Laws.{settle-bind-done, calls-bind-done}
use process_control.Base.Sysargs.{Sysargs}
use process_control.Base.Syscalls.{Number, TellsApart, sys_semcreate, sys_semp, sys_semv}
use process_control.Phase3.State.{State, Answer, Call, Routine, max_sems, mbox_create, mbox_recv}
use process_control.Phase3.Table.{Handler, handler_of, phase3_init, phase3_init-handler_of}
use process_control.Phase3.Semaphore.{
  add_value, settle_call, kern_sem_create, kern_sem_p, kern_sem_v,
}
use process_control.Phase3.Semaphore.Counting.{acquire, kern_sem_p-acquire, kern_sem_v-release}
use process_control.Phase3.Semaphore.Creation.{IsFilled, created, kern_sem_create-created}
use process_control.User.State.{Machine, int_of}
use process_control.User
use process_control.User.Casts.{IsInt, int_of-IsInt}
use process_control.User.Kernel.{no_args, sem_create, sem_p, sem_v}
use process_control.User.Link.{serve, through, through-kernel-trap}

-- A new semaphore, then V and P on it: its number, and the results of the three calls.
unfoldable pub create_v_p : Machine → ℤ → ℕ → User.State.Routine (ℤ × ℤ × ℤ × ℤ)
unfolding bind
create_v_p m value psr = bind (sem_create m value psr) (λ made p.
    bind (sem_v m made.0 p) (λ v q. bind (sem_p m made.0 q) (λ w r. done (made.0, made.1, v, w) r)))

zero_int : int_of (pos 0) ≡ pos 0
zero_int = int_of-IsInt (pos 0) (omega arith)

new_value :
    (i : ℕ) (d : ℤ) (s : State)
    → ((add_value i d s).semaphore_table i).value ≡ (s.semaphore_table i).value +ℤ d
new_value i d s = ap (λ x. x.value) (update_self s.semaphore_table i _)

module _ (args : Sysargs) (s : State) (i n : ℕ) (index : args.arg1 ≡ pos i)
    (within : i < max_sems) where
  -- On a semaphore for which nobody waits, V and the P that finds a count return at once.
  kern_sem_v-counts :
      (s.semaphore_table i).value ≡ pos n
      → kern_sem_v args s ≡ done (record args { arg4 = pos 0 }) (add_value i (pos 1) s)
  kern_sem_v-counts e =
      (kern_sem_v-release args s i (record { count = n; waiting = 0 }) index within
        (e ∙ ground arith, inr refl)).0

  kern_sem_p-counts :
      (s.semaphore_table i).value ≡ pos (suc n)
      → kern_sem_p args s ≡ done (record args { arg4 = pos 0 }) (add_value i minus_one s)
  kern_sem_p-counts e =
      (kern_sem_p-acquire args s i (record { count = suc n; waiting = 0 }) index within
        (e ∙ ground arith, inr refl)).0
      ∙ ap
          (λ b.
            if b
            then yields (mbox_recv (s.semaphore_table i).mbox_id) (add_value i minus_one s)
                (settle_call i (pos 1) args)
            else done (record args { arg4 = pos 0 }) (add_value i minus_one s))
          (none_waits n)
    where
      none_waits : (k : ℕ) → (acquire (record { count = suc k; waiting = 0 })).0 ≡ false
      none_waits k = ground arith

kern_sem_create-calls :
    (left_over : ℤ) (args : Sysargs) (answer : Answer) (s : State)
    → calls (λ e u. (answer, u)) (kern_sem_create left_over args s) ≡ mbox_create 0 0 ∷ []
unfolding kern_sem_create calls
kern_sem_create-calls left_over args answer s = ap (λ es. mbox_create 0 0 ∷ es) (either _ _ _ _ _)
  where
    either :
        (b : Bool) (x y : Sysargs) (t u : State)
        → calls {E = Call} (λ e w. (answer, w)) (if b then done x t else done y u) ≡ []
    either true x y t u = refl
    either false x y t u = refl

module _ (m : Machine) (number : Number → ℕ) (apart : TellsApart number) (fuel : ℕ) (left_over : ℤ)
    (vec : ℕ → Option Handler) where
  abbrev pub kernel : Number → Sysargs → State → Routine Sysargs
  kernel = serve number (phase3_init number fuel left_over vec)

  pub kernel-handler_of :
      (n : Number) (handler : Handler) (args : Sysargs) (s : State)
      → handler_of fuel left_over n (vec (number n)) ≡ some handler
      → kernel n args s ≡ handler args s
  kernel-handler_of n handler args s e =
      ap (λ o. elim o [ none ↦ fault s | some h ↦ h args s ])
        (phase3_init-handler_of number fuel left_over vec apart n ∙ e)

  module _ {A : Type 0} (f : ℤ → ℕ → User.State.Routine A) (i n : ℕ) (s : State)
      (within : i < max_sems) where
    sem_v-counts :
        (s.semaphore_table i).value ≡ pos n
        → through kernel no_args (bind (sem_v m (pos i) m.current_int) f) s
          ≡ through kernel no_args (f (pos 0) m.current_int) (add_value i (pos 1) s)
    unfolding sem_v bind
    sem_v-counts e =
        through-kernel-trap kernel no_args m sys_semv (record no_args { arg1 = pos i })
          (λ res. int_of res.arg4) f s
        ∙ ap (λ r. bind r (λ res t. through kernel no_args (f (int_of res.arg4) m.current_int) t))
            (kernel-handler_of sys_semv kern_sem_v (record no_args { arg1 = pos i }) s refl
              ∙ kern_sem_v-counts (record no_args { arg1 = pos i }) s i n refl within e)
        ∙ ap (λ z. through kernel no_args (f z m.current_int) (add_value i (pos 1) s)) zero_int

    sem_p-counts :
        (s.semaphore_table i).value ≡ pos (suc n)
        → through kernel no_args (bind (sem_p m (pos i) m.current_int) f) s
          ≡ through kernel no_args (f (pos 0) m.current_int) (add_value i minus_one s)
    unfolding sem_p bind
    sem_p-counts e =
        through-kernel-trap kernel no_args m sys_semp (record no_args { arg1 = pos i })
          (λ res. int_of res.arg4) f s
        ∙ ap (λ r. bind r (λ res t. through kernel no_args (f (int_of res.arg4) m.current_int) t))
            (kernel-handler_of sys_semp kern_sem_p (record no_args { arg1 = pos i }) s refl
              ∙ kern_sem_p-counts (record no_args { arg1 = pos i }) s i n refl within e)
        ∙ ap (λ z. through kernel no_args (f z m.current_int) (add_value i minus_one s)) zero_int

  -- What create_v_p does behind the creation.
  v_p : ℕ → Sysargs → State → Routine (ℤ × ℤ × ℤ × ℤ)
  unfolding bind
  v_p n res t =
      through kernel no_args
        (bind (sem_v m (int_of res.arg1) m.current_int) (λ v q.
          bind (sem_p m (int_of res.arg1) q)
            (λ w r. done (int_of res.arg1, int_of res.arg4, v, w) r)))
        t

  start :
      (n : ℕ) (s : State)
      → through kernel no_args (create_v_p m (pos n) m.current_int) s
        ≡ bind (kern_sem_create left_over (record no_args { arg1 = pos n }) s) (v_p n)
  unfolding create_v_p sem_create v_p
  start n s =
      through-kernel-trap kernel no_args m sys_semcreate (record no_args { arg1 = pos n })
        (λ res. (int_of res.arg1, int_of res.arg4))
        (λ made p.
          bind (sem_v m made.0 p)
            (λ v q. bind (sem_p m made.0 q) (λ w r. done (made.0, made.1, v, w) r)))
        s
      ∙ ap (λ r. bind r (v_p n))
          (kernel-handler_of sys_semcreate (kern_sem_create left_over)
            (record no_args { arg1 = pos n }) s refl)

  behind :
      (n : ℕ) (s : State) (room : s.sem_counter < max_sems) (made : State)
      → (made.semaphore_table s.sem_counter).value ≡ pos n
      → ((add_value s.sem_counter (pos 1) made).semaphore_table s.sem_counter).value ≡ pos (suc n)
      → v_p n (record no_args { arg1 = pos s.sem_counter }) made
        ≡ done
            (pos s.sem_counter, pos 0, pos 0, pos 0)
            (add_value s.sem_counter minus_one (add_value s.sem_counter (pos 1) made))
  unfolding v_p through
  behind n s room made value0 value1 =
      let i = s.sem_counter in
      let number_kept = int_of-IsInt (pos i) (omega arith) in
      ap
        (λ z.
          through kernel no_args
            (bind (sem_v m z m.current_int)
              (λ v q. bind (sem_p m z q) (λ w r. done (z, int_of (pos 0), v, w) r)))
            made)
        number_kept
      ∙ ap
          (λ z.
            through kernel no_args
              (bind (sem_v m (pos i) m.current_int)
                (λ v q. bind (sem_p m (pos i) q) (λ w r. done (pos i, z, v, w) r)))
              made)
          zero_int
      ∙ sem_v-counts (λ v q. bind (sem_p m (pos i) q) (λ w r. done (pos i, pos 0, v, w) r)) i n made
          room value0
      ∙ sem_p-counts (λ w r. done (pos i, pos 0, pos 0, w) r) i n (add_value i (pos 1) made) room
          value1

  -- SemCreate, SemV and SemP from user mode: in a semaphore table that is filled up to its counter
  -- and not full, a semaphore with a value n that is not negative and below the largest `int` gets the
  -- next entry as its number, V and P on that number find it, all three calls return 0, and behind V
  -- and P the value is n again. Only the creation calls a lower phase, for a mailbox. The environment
  -- gives a mailbox that is not 0 and leaves the state; semCreate does not happen to leave -1 where its
  -- result is read.
  pub create_v_p-value :
      (n : ℕ) (answer : Answer) (s : State)
      → IsInt (pos (suc n))
      → IsFilled s
      → s.sem_counter < max_sems
      → eqb_ℤ answer.result (pos 0) ≡ false
      → eqb_ℤ left_over minus_one ≡ false
      → (t : State) × (settle
            (λ e u. (answer, u))
            (through kernel no_args (create_v_p m (pos n) m.current_int) s)
          ≡ done (pos s.sem_counter, pos 0, pos 0, pos 0) t)
        × (calls
              (λ e u. (answer, u))
              (through kernel no_args (create_v_p m (pos n) m.current_int) s)
            ≡ mbox_create 0 0 ∷ [])
        × ((t.semaphore_table s.sem_counter).value ≡ pos n)
        × IsFilled (created answer.result (pos n) s)
  unfolding create_v_p settle calls
  create_v_p-value n answer s bounded filled room mailbox luck =
      let i = s.sem_counter in
      let made = created answer.result (pos n) s in
      let args = record no_args { arg1 = pos n } in
      let value0 = ap (λ x. x.value) (update_self s.semaphore_table i _) in
      let value1 = new_value i (pos 1) made ∙ ap (λ z. z +ℤ pos 1) value0 ∙ plus_one n in
      let value2 =
        new_value i minus_one (add_value i (pos 1) made)
        ∙ ap (λ z. z +ℤ minus_one) value1
        ∙ minus n in
      let (ends, fills) =
        kern_sem_create-created left_over args s answer filled room mailbox luck refl in
      let rest = behind n s room made value0 value1 in
      (
        add_value i minus_one (add_value i (pos 1) made),
        ap (settle (λ e u. (answer, u))) (start n s)
            ∙ settle-bind-done (λ e u. (answer, u)) (v_p n) (kern_sem_create left_over args s) _
                made ends
            ∙ ap (settle (λ e u. (answer, u))) rest,
        ap (calls (λ e u. (answer, u))) (start n s)
            ∙ calls-bind-done (λ e u. (answer, u)) (v_p n) (kern_sem_create left_over args s) _ made
                ends
            ∙ ap
                (λ es.
                  es
                  ++ calls (λ e u. (answer, u))
                      (v_p n (record args { arg4 = pos 0; arg1 = pos i }) made))
                (kern_sem_create-calls left_over args answer s)
            ∙ ap (λ r. mbox_create 0 0 ∷ calls (λ e u. (answer, u)) r) rest,
        value2,
        fills,
      )
    where
      plus_one : (k : ℕ) → pos k +ℤ pos 1 ≡ pos (suc k)
      plus_one k = ground arith

      minus : (k : ℕ) → pos (suc k) +ℤ minus_one ≡ pos k
      minus k = ground arith
