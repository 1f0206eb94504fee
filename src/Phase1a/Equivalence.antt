-- ===== src/Phase1a/Equivalence.antt =====
-- The two versions of join, of phase1a/phase1.c and of phase1b/phase1.c, side by side.
use process_control.Base.{
  ℕ, zero, suc, ◌+◌, ◌%◌, if◌then◌else◌, ◌≡◌, refl, ap, sym, subst, ◌∙◌, ◌⊎◌, inl, inr, Bool, true,
  false, ◌&&◌, not, Option, none, some, is_none, field_update,
}
use process_control.Base.Int.{ℤ, pos, minus_two}
use process_control.Base.Run.{done, yields, halted, fault, out_of_fuel, bind}
use process_control.Phase1
use process_control.Phase1.State.ProcessState.{removed}
use process_control.Phase1.Zap.{is_terminated}
use process_control.Phase1.Family.{
  Search, dead_child, nobody, bad_child, endless_list, Status, untouched, written, nested_status,
}
use process_control.Phase1a.State.{
  Process, State, Routine, max_proc, blank, put_process, set_state, get_process, getpid,
}
use process_control.Phase1a.Family.{
  search_children, unlink_child_prev, unlink_child_next, reap, join,
}

-- What a process and a state of phase 1b are in phase 1a, which has no run queues, no zap and no clock.
abbrev pub of_process : Phase1.State.Process → Process
of_process p = record {
  is_initialized = p.is_initialized;
  name = p.name;
  pid = p.pid;
  priority = p.priority;
  next_sibling = p.next_sibling;
  prev_sibling = p.prev_sibling;
  parent = p.parent;
  first_child = p.first_child;
  state = p.state;
  stack = p.stack;
  status = p.status;
  start_func = p.start_func;
  arg = p.arg;
}

abbrev pub of_state : Phase1.State.State → State
of_state s = record {
  process_table = λ k. of_process (s.process_table k);
  running_process_id = s.running_process_id;
  pid_counter = s.pid_counter;
  psr = s.psr;
}

of_state-put_process :
    (i : ℕ) (p : Phase1.State.Process) (s : Phase1.State.State)
    → of_state (Phase1.State.put_process i p s) ≡ put_process i (of_process p) (of_state s)
of_state-put_process i p s = λ j. record (of_state s) {
  process_table = λ k. field_update s.process_table of_process i p k j;
}

pub search_children-same :
    (fuel : ℕ) (table : ℕ → Phase1.State.Process) (current : Option ℕ)
    → search_children fuel (λ k. of_process (table k)) current
      ≡ Phase1.Family.search_children fuel table current
unfolding search_children Phase1.Family.search_children
search_children-same zero table current = refl
search_children-same (suc fuel) table none = refl
search_children-same (suc fuel) table (some c) =
    ap
      (λ rest.
        if Phase1.Dispatch.is_unset (table c).state
        then bad_child
        else if is_terminated (table c).state
        then dead_child c
        else rest)
      (search_children-same fuel table (table c).next_sibling)

unlink_child_prev-same :
    (parent c : ℕ) (s : Phase1.State.State)
    → of_state (Phase1.Family.unlink_child_prev parent c s)
      ≡ unlink_child_prev parent c (of_state s)
unfolding unlink_child_prev
unlink_child_prev-same parent c s = go (s.process_table c).prev_sibling
  where
    go :
        (o : Option ℕ)
        → of_state (elim o [
          | none ↦
              Phase1.State.put_process parent
                (record (s.process_table parent) { first_child = (s.process_table c).next_sibling })
                s
          | some p ↦
              Phase1.State.put_process p
                (record (s.process_table p) { next_sibling = (s.process_table c).next_sibling })
                s
        ])
          ≡ elim o [
            | none ↦
                put_process parent
                  (record (of_process (s.process_table parent)) {
                    first_child = (s.process_table c).next_sibling;
                  })
                  (of_state s)
            | some p ↦
                put_process p
                  (record (of_process (s.process_table p)) {
                    next_sibling = (s.process_table c).next_sibling;
                  })
                  (of_state s)
          ]
    go none = of_state-put_process parent _ s
    go (some p) = of_state-put_process p _ s

unlink_child_next-same :
    (c : ℕ) (s : Phase1.State.State)
    → of_state (Phase1.Family.unlink_child_next c s) ≡ unlink_child_next c (of_state s)
unfolding unlink_child_next
unlink_child_next-same c s = go (s.process_table c).next_sibling
  where
    go :
        (o : Option ℕ)
        → of_state (elim o [
          | none ↦ s
          | some n ↦
              Phase1.State.put_process n
                (record (s.process_table n) { prev_sibling = (s.process_table c).prev_sibling })
                s
        ])
          ≡ elim o [
            | none ↦ of_state s
            | some n ↦
                put_process n
                  (record (of_process (s.process_table n)) {
                    prev_sibling = (s.process_table c).prev_sibling;
                  })
                  (of_state s)
          ]
    go none = refl
    go (some n) = of_state-put_process n _ s

-- Both versions take the child out of the list of children and clear its entry.
pub reap-same :
    (parent c : ℕ) (s : Phase1.State.State)
    → of_state (Phase1.Family.reap parent c s) ≡ reap parent c (of_state s)
unfolding reap Phase1.Family.reap
reap-same parent c s =
    let t = Phase1.Family.unlink_child_next c (Phase1.Family.unlink_child_prev parent c s) in
    let u = Phase1.Dispatch.set_state c removed t in
    of_state-put_process ((u.process_table c).pid % max_proc) Phase1.Create.blank u
    ∙ ap clear (of_state-put_process c (record (t.process_table c) { state = removed }) t)
    ∙ ap (λ x. clear (set_state c removed x))
        (unlink_child_next-same c (Phase1.Family.unlink_child_prev parent c s)
          ∙ ap (unlink_child_next c) (unlink_child_prev-same parent c s))
  where
    clear : State → State
    clear x = put_process ((x.process_table c).pid % max_proc) blank x

-- A process whose children are all alive: the only case in which the versions differ.
abbrev is_nobody : Search → Bool
is_nobody nobody = true
is_nobody _ = false

abbrev pub waits : Phase1.State.State → Bool
waits s = elim (Phase1.State.get_process (Phase1.State.getpid s)) [
  | none ↦ false
  | some parent ↦
      not (is_none (s.process_table parent).first_child)
      && is_nobody (
          Phase1.Family.search_children (max_proc + 1) s.process_table
            (s.process_table parent).first_child)
]

-- The routine of phase 1a ends as the one of phase 1b does, which makes no call, with the same answer
-- and in the same state but for what phase 1a does not have.
abbrev pub Agree : {A : Type 0} → Phase1.State.Routine A → Routine A → Type 0
Agree (done a s) r = r ≡ done a (of_state s)
Agree (yields e s k) r = ⊥
Agree (halted c s) r = r ≡ halted c (of_state s)
Agree (fault s) r = r ≡ fault (of_state s)
Agree (out_of_fuel s) r = r ≡ out_of_fuel (of_state s)

-- What join of phase 1b does where that of phase 1a gives up.
abbrev pub wait_and_retry : ℕ → Phase1.State.State → Phase1.State.Routine (ℤ × Status)
wait_and_retry fuel s =
    bind (Phase1.Dispatch.block_me Phase1.State.join_block_status s)
      (λ _ t. bind (Phase1.Family.join fuel t) (λ r u. done (r.0, nested_status r.1) u))

-- The version of phase 1a behind the search of the children, by its outcome.
unfoldable pub ended_1a : ℕ → State → Search → Routine (ℤ × Status)
ended_1a parent s (dead_child c) =
    done (pos (s.process_table c).pid, written (s.process_table c).status) (reap parent c s)
ended_1a parent s nobody = done (minus_two, untouched) s
ended_1a parent s bad_child = fault s
ended_1a parent s endless_list = out_of_fuel s

module _ (fuel : ℕ) (s : Phase1.State.State) where
  ended_1b : ℕ → Search → Phase1.State.Routine (ℤ × Status)
  ended_1b parent (dead_child c) =
      done (pos (s.process_table c).pid, written (s.process_table c).status)
        (Phase1.Family.reap parent c s)
  ended_1b parent nobody = wait_and_retry fuel s
  ended_1b parent bad_child = fault s
  ended_1b parent endless_list = out_of_fuel s

  -- The two ways in which the versions can go.
  abbrev Ways : Bool → Phase1.State.Routine (ℤ × Status) → Routine (ℤ × Status) → Type 0
  Ways waiting b a =
      ((waiting ≡ false) × Agree b a)
      ⊎ ((waiting ≡ true)
          × (b ≡ wait_and_retry fuel s)
          × (a ≡ done (minus_two, untouched) (of_state s)))

  ended-Ways :
      (parent : ℕ) (x : Search)
      → Ways (is_nobody x) (ended_1b parent x) (ended_1a parent (of_state s) x)
  unfolding ended_1a ended_1b
  ended-Ways parent (dead_child c) = inl (
    refl,
    ap (done (pos (s.process_table c).pid, written (s.process_table c).status))
        (sym (reap-same parent c s)),
  )
  ended-Ways parent nobody = inr (refl, refl, refl)
  ended-Ways parent bad_child = inl (refl, refl)
  ended-Ways parent endless_list = inl (refl, refl)

  childless-Ways :
      (parent : ℕ) (childless : Bool) (x : Search)
      → Ways
          (not childless && is_nobody x)
          (if childless then done (minus_two, untouched) s else ended_1b parent x)
          (if childless
            then done (minus_two, untouched) (of_state s)
            else ended_1a parent (of_state s) x)
  childless-Ways parent true x = inl (refl, refl)
  childless-Ways parent false x = ended-Ways parent x

  -- The two versions of join, from any state of phase 1b. Where the caller has children and none has
  -- ended, the one of phase 1b waits for a child and starts again, and the one of phase 1a answers -2
  -- and leaves the state. In every other case the one of phase 1b makes no call, and the one of phase
  -- 1a gives the same answer, status and table, without the queues, the zaps and the times.
  pub join-same :
      ((waits s ≡ false) × Agree (Phase1.Family.join (suc fuel) s) (join (of_state s)))
      ⊎ ((waits s ≡ true)
          × (Phase1.Family.join (suc fuel) s ≡ wait_and_retry fuel s)
          × (join (of_state s) ≡ done (minus_two, untouched) (of_state s)))
  unfolding join Phase1.Family.join ended_1a ended_1b
  join-same = go (get_process (getpid (of_state s)))
    where
      first : ℕ → Option ℕ
      first q = (s.process_table q).first_child

      found : ℕ → Search
      found q = Phase1.Family.search_children (max_proc + 1) s.process_table (first q)

      body_1a : ℕ → Search → Routine (ℤ × Status)
      body_1a q x =
          if is_none (first q)
          then done (minus_two, untouched) (of_state s)
          else ended_1a q (of_state s) x

      body_1b : ℕ → Phase1.State.Routine (ℤ × Status)
      body_1b q = if is_none (first q) then done (minus_two, untouched) s else ended_1b q (found q)

      go :
          (o : Option ℕ)
          → Ways
              (elim o [ none ↦ false | some q ↦ not (is_none (first q)) && is_nobody (found q) ])
              (elim o [ none ↦ fault s | some q ↦ body_1b q ])
              (elim o [
                | none ↦ fault (of_state s)
                | some q ↦
                    body_1a q (
                      search_children
                        (max_proc + 1)
                        (λ k. of_process (s.process_table k))
                        (first q))
              ])
      go none = inl (refl, refl)
      go (some q) =
          subst
            (λ x. Ways (not (is_none (first q)) && is_nobody (found q)) (body_1b q) (body_1a q x))
            (sym (search_children-same (max_proc + 1) s.process_table (first q)))
            (childless-Ways q (is_none (first q)) (found q))
