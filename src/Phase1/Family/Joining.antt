-- ===== src/Phase1/Family/Joining.antt =====
-- join of phase1b/phase1.c on a process with a child that has ended.
use process_control.Base.{
  ℕ, zero, suc, ◌+◌, ◌%◌, ◌<◌, if◌then◌else◌, ◌≡◌, ◌≢◌, ap, ◌∙◌, true, false, Option, none, some,
  List, [], ◌∷◌, ◌++◌, length, All, is_none, arith,
}
use process_control.Base.Int.{ℤ, pos, minus_two}
use process_control.Base.Run.{done, fault, out_of_fuel, bind}
use process_control.Base.Chain.{Chain, Distinct, Back}
use process_control.Phase1.State.{Process, State, Routine, max_proc, join_block_status, get_process}
use process_control.Phase1.Dispatch.{is_unset, block_me}
use process_control.Phase1.Zap.{is_terminated}
use process_control.Phase1.Create.{blank}
use process_control.Phase1.Family.{
  Search, dead_child, nobody, bad_child, endless_list, Status, untouched, written, nested_status,
  search_children, reap, join,
}
use process_control.Phase1.Family.Reaping.{sibling_links, sibling_back, reap-Chain}

-- Alive, and with a state that can be compared.
abbrev pub IsAlive : (ℕ → Process) → ℕ → Type 0
IsAlive table k = (is_unset (table k).state ≡ false) × (is_terminated (table k).state ≡ false)

pub search_children-first :
    (fuel : ℕ) (table : ℕ → Process) (head : Option ℕ) (pre : List ℕ) (c : ℕ) (post : List ℕ)
    → Chain (λ k. (table k).next_sibling) head (pre ++ c ∷ post)
    → length (pre ++ c ∷ post) < fuel
    → All (IsAlive table) pre
    → is_unset (table c).state ≡ false
    → is_terminated (table c).state ≡ true
    → search_children fuel table head ≡ dead_child c
unfolding search_children
search_children-first zero table head pre c post chain l alive set dead = absurd (omega arith)
search_children-first (suc fuel) table head [] c post chain l alive set dead =
    simp (chain.0, set, dead, search_children)
search_children-first (suc fuel) table head (p ∷ ps) c post chain l alive set dead =
    let rest =
      search_children-first fuel table (table p).next_sibling ps c post chain.1 (omega arith)
        alive.1 set dead in
    simp (chain.0, (alive.0).0, (alive.0).1, rest, search_children)

-- A running process whose children are a doubly linked list, one of which has ended, gets from
-- join the pid and the status of the first one that has, without waiting; this child leaves the
-- list, in which the others keep their order, and its slot is free. The children are distinct, no
-- more than MAXPROC, apart from the parent, those before the one that has ended have a state, and
-- its pid is one of its slot.
pub join-first_dead :
    (fuel n c : ℕ) (pre post : List ℕ) (s : State)
    → s.running_process_id ≡ pos n
    → Chain (sibling_links s) (s.process_table (n % max_proc)).first_child (pre ++ c ∷ post)
    → Back (sibling_back s) none (pre ++ c ∷ post)
    → Distinct (pre ++ c ∷ post)
    → length (pre ++ c ∷ post) < max_proc + 1
    → All (IsAlive s.process_table) pre
    → is_unset (s.process_table c).state ≡ false
    → is_terminated (s.process_table c).state ≡ true
    → c ≢ n % max_proc
    → (s.process_table c).pid % max_proc ≡ c
    → (t : State) × (join (suc fuel) s
        ≡ done (pos (s.process_table c).pid, written (s.process_table c).status) t)
      × Chain (sibling_links t) (t.process_table (n % max_proc)).first_child (pre ++ post)
      × (t.process_table c ≡ blank)
unfolding join
join-first_dead fuel n c pre post s run chain back d l alive set dead ne own =
    let (t, reaped, behind, free) = reap-Chain (n % max_proc) c pre post s chain back d ne own in
    (
      t,
      ap (λ o. elim o [ none ↦ fault s | some q ↦ body q ]) (ap get_process run)
          ∙ ap
              (λ b.
                if b
                then done (minus_two, untouched) s
                else found (n % max_proc) (search (n % max_proc)))
              (some_child pre (s.process_table (n % max_proc)).first_child chain)
          ∙ ap (found (n % max_proc)) (
              search_children-first (max_proc + 1) s.process_table
                (s.process_table (n % max_proc)).first_child pre c post chain l alive set dead)
          ∙ ap (λ x. done (pos (s.process_table c).pid, written (s.process_table c).status) x)
              reaped,
      behind,
      free,
    )
  where
    some_child :
        (xs : List ℕ) (head : Option ℕ)
        → Chain (sibling_links s) head (xs ++ c ∷ post)
        → is_none head ≡ false
    some_child [] head k = ap is_none k.0
    some_child (x ∷ xs) head k = ap is_none k.0

    search : ℕ → Search
    search q = search_children (max_proc + 1) s.process_table (s.process_table q).first_child

    found : ℕ → Search → Routine (ℤ × Status)
    found q (dead_child k) =
        done (pos (s.process_table k).pid, written (s.process_table k).status) (reap q k s)
    found q nobody =
        bind (block_me join_block_status s)
          (λ _ t. bind (join fuel t) (λ r u. done (r.0, nested_status r.1) u))
    found q bad_child = fault s
    found q endless_list = out_of_fuel s

    body : ℕ → Routine (ℤ × Status)
    body q =
        if is_none (s.process_table q).first_child
        then done (minus_two, untouched) s
        else elim (search q) [
          | dead_child k ↦ found q (dead_child k)
          | nobody ↦ found q nobody
          | bad_child ↦ fault s
          | endless_list ↦ out_of_fuel s
        ]
