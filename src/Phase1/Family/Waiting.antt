-- ===== src/Phase1/Family/Waiting.antt =====
-- join of phase1b/phase1.c for a process none of whose children has ended.
use process_control.Base.{
  ℕ, zero, suc, ◌+◌, ◌%◌, ◌<◌, if◌then◌else◌, ◌≡◌, refl, ap, ◌∙◌, Option, none, some, is_none, List,
  [], ◌∷◌, ◌++◌, length, All, arith, update,
}
use process_control.Base.Int.{ℤ, pos, minus_two}
use process_control.Base.Run.{done, fault, out_of_fuel, bind}
use process_control.Base.Chain.{Chain}
use process_control.Phase1.State.{Process, State, Routine, max_proc, join_block_status, get_process}
use process_control.Phase1.State.ProcessState.{blocked_join}
use process_control.Phase1.Queue.Invariant.{WellQueued}
use process_control.Phase1.Dispatch.{dispatcher, block_me}
use process_control.Phase1.Dispatch.Blocking.{block_me-WellQueued}
use process_control.Phase1.Family.{
  Search, dead_child, nobody, bad_child, endless_list, Status, untouched, written, nested_status,
  search_children, reap, join,
}
use process_control.Phase1.Family.Reaping.{sibling_links}
use process_control.Phase1.Family.Joining.{IsAlive}

search_children-nobody :
    (fuel : ℕ) (table : ℕ → Process) (head : Option ℕ) (xs : List ℕ)
    → Chain (λ k. (table k).next_sibling) head xs
    → length xs < fuel
    → All (IsAlive table) xs
    → search_children fuel table head ≡ nobody
unfolding search_children
search_children-nobody zero table head xs chain l alive = absurd (omega arith)
search_children-nobody (suc fuel) table head [] chain l alive = rw (chain, search_children) refl
search_children-nobody (suc fuel) table head (x ∷ xs) chain l alive =
    let rest =
      search_children-nobody fuel table (table x).next_sibling xs chain.1 (omega arith) alive.1 in
    simp (chain.0, (alive.0).0, (alive.0).1, rest, search_children)

-- What join does once the process is resumed.
abbrev pub join_again : ℕ → State → Routine (ℤ × Status)
join_again fuel u = bind (join fuel u) (λ r v. done (r.0, nested_status r.1) v)

-- A running process with children, all of which are alive, blocks in join: it leaves the queue of its
-- priority, in well-formed queues, which are well formed behind it, its state says that it waits for a
-- child, and the dispatcher is called. Once it is resumed, in any state in which a join would answer
-- with a child's pid and status, it answers them. The children are no more than MAXPROC.
pub join-block_me :
    (fuel pid i : ℕ) (child : ℕ) (children pre post : List ℕ) (s u v : State) (queues : ℕ → List ℕ)
    (answer status : ℤ)
    → s.running_process_id ≡ pos pid
    → Chain (sibling_links s) (s.process_table (pid % max_proc)).first_child (child ∷ children)
    → length (child ∷ children) < max_proc + 1
    → All (IsAlive s.process_table) (child ∷ children)
    → i < 8
    → WellQueued s queues
    → queues i ≡ pre ++ (pid % max_proc) ∷ post
    → join fuel u ≡ done (answer, written status) v
    → (t : State) × (join (suc fuel) s ≡ bind (dispatcher t) (λ _ x. join_again fuel x))
      × WellQueued t (update queues i (pre ++ post))
      × ((t.process_table (pid % max_proc)).state ≡ blocked_join)
      × (join_again fuel u ≡ done (answer, written status) v)
unfolding join bind
join-block_me fuel pid i child children pre post s u v queues answer status run chain l alive within
      well here e =
    let (t, calls, well_t, state) =
      block_me-WellQueued pid i pre post join_block_status s queues run within well here refl in
    (
      t,
      ap (λ o. elim o [ none ↦ fault s | some q ↦ body q ]) (ap get_process run)
          ∙ ap
              (λ b.
                if b
                then done (minus_two, untouched) s
                else found (pid % max_proc) (search (pid % max_proc)))
              (ap is_none chain.0)
          ∙ ap (found (pid % max_proc)) (
              search_children-nobody (max_proc + 1) s.process_table
                (s.process_table (pid % max_proc)).first_child (child ∷ children) chain l alive)
          ∙ ap (λ r. bind r (λ _ x. join_again fuel x)) calls,
      well_t,
      state,
      ap (λ r. bind r (λ x w. done (x.0, nested_status x.1) w)) e,
    )
  where
    search : ℕ → Search
    search q = search_children (max_proc + 1) s.process_table (s.process_table q).first_child

    found : ℕ → Search → Routine (ℤ × Status)
    found q (dead_child k) =
        done (pos (s.process_table k).pid, written (s.process_table k).status) (reap q k s)
    found q nobody = bind (block_me join_block_status s) (λ _ t. join_again fuel t)
    found q bad_child = fault s
    found q endless_list = out_of_fuel s

    body : ℕ → Routine (ℤ × Status)
    body q =
        if is_none (s.process_table q).first_child
        then done (minus_two, untouched) s
        else found q (search q)
