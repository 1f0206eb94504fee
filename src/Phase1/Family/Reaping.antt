-- ===== src/Phase1/Family/Reaping.antt =====
-- How join of phase1b/phase1.c takes a child out of the list of children.
use process_control.Base.{
  ℕ, ◌%◌, ◌≡◌, ◌≢◌, refl, ap, sym, ◌∙◌, subst, true, false, Option, none, some, List, [], ◌∷◌, ◌++◌,
  has, arith, update_self, update_ne, update_field, field_update,
}
use process_control.Base.Chain.{
  Links, Chain, Distinct, Back, Back-last, last_of, Chain-frame, Chain-remove,
}
use process_control.Phase1.State.{Process, State, max_proc, put_process}
use process_control.Phase1.State.ProcessState.{removed}
use process_control.Phase1.Dispatch.{set_state}
use process_control.Phase1.Create.{blank}
use process_control.Phase1.Family.{unlink_child_prev, unlink_child_next, reap}

abbrev pub sibling_links : State → Links
sibling_links s = λ k. (s.process_table k).next_sibling

abbrev pub sibling_back : State → Links
sibling_back s = λ k. (s.process_table k).prev_sibling

-- `unlink_child_next` writes a pointer back only: what else is read of a process is kept.
unlink_child_next-field :
    {B : Type 0} (g : Process → B) (c : ℕ) (s : State) (k : ℕ)
    → ((x : Process) (q : Option ℕ) → g (record x { prev_sibling = q }) ≡ g x)
    → g ((unlink_child_next c s).process_table k) ≡ g (s.process_table k)
unlink_child_next-field {B = B} g c s k keeps = go (sibling_links s c)
  where
    read : State → B
    read t = g (t.process_table k)

    go :
        (o : Option ℕ)
        → read (elim o [
          | none ↦ s
          | some n ↦
              put_process n
                (record (s.process_table n) { prev_sibling = (s.process_table c).prev_sibling })
                s
        ])
          ≡ g (s.process_table k)
    go none = refl
    go (some n) =
        update_field s.process_table g n _
          (keeps (s.process_table n) (s.process_table c).prev_sibling) k

-- What unlinks the child from the one before it, by its pointer back.
before_step : ℕ → ℕ → State → Option ℕ → State
before_step parent c s none =
    put_process parent (record (s.process_table parent) { first_child = sibling_links s c }) s
before_step parent c s (some p) =
    put_process p (record (s.process_table p) { next_sibling = sibling_links s c }) s

unlink_child_prev-before_step :
    (parent c : ℕ) (s : State) (before : Option ℕ)
    → sibling_back s c ≡ before
    → unlink_child_prev parent c s ≡ before_step parent c s before
unfolding before_step
unlink_child_prev-before_step parent c s before e =
    go (sibling_back s c) ∙ ap (before_step parent c s) e
  where
    go :
        (o : Option ℕ)
        → (elim o [
          | none ↦
              put_process parent
                (record (s.process_table parent) { first_child = (s.process_table c).next_sibling })
                s
          | some p ↦
              put_process p
                (record (s.process_table p) { next_sibling = (s.process_table c).next_sibling })
                s
        ])
          ≡ before_step parent c s o
    go none = refl
    go (some p) = refl

before_step-pid :
    (parent c : ℕ) (s : State) (o : Option ℕ) (k : ℕ)
    → ((before_step parent c s o).process_table k).pid ≡ (s.process_table k).pid
unfolding before_step
before_step-pid parent c s none k = update_field s.process_table (λ x. x.pid) parent _ refl k
before_step-pid parent c s (some p) k = update_field s.process_table (λ x. x.pid) p _ refl k

-- The entry of the child is cleared last.
reap-cleared :
    (parent c : ℕ) (s u : State)
    → unlink_child_prev parent c s ≡ u
    → (u.process_table c).pid % max_proc ≡ c
    → reap parent c s ≡ put_process c blank (set_state c removed (unlink_child_next c u))
unfolding reap
reap-cleared parent c s u first own =
    ap
      (λ x.
        let t = set_state c removed (unlink_child_next c x) in
        put_process ((t.process_table c).pid % max_proc) blank t)
      first
    ∙ ap (λ k. put_process k blank (set_state c removed (unlink_child_next c u)))
        (ap (λ n. n % max_proc)
            (update_field (unlink_child_next c u).process_table (λ x. x.pid) c _ refl c
              ∙ unlink_child_next-field (λ x. x.pid) c u c (λ x q. refl))
          ∙ own)

-- What is read of the processes other than the child, behind the whole.
cleared-field :
    {B : Type 0} (g : Process → B) (c : ℕ) (u : State) (k : ℕ)
    → c ≢ k
    → ((x : Process) (q : Option ℕ) → g (record x { prev_sibling = q }) ≡ g x)
    → g ((put_process c blank (set_state c removed (unlink_child_next c u))).process_table k)
      ≡ g (u.process_table k)
cleared-field g c u k ne keeps =
    let t = unlink_child_next c u in
    ap g (update_ne (set_state c removed t).process_table blank ne ∙ update_ne t.process_table _ ne)
    ∙ unlink_child_next-field g c u k keeps

Distinct-middle :
    (pre : List ℕ) (c : ℕ) (post : List ℕ)
    → Distinct (pre ++ c ∷ post)
    → has c (pre ++ post) ≡ false
Distinct-middle [] c post d = d.0
Distinct-middle (p ∷ ps) c post d = ground (arith, Distinct-middle ps c post d.1, ne ps d.0)
  where
    ne : (qs : List ℕ) → has p (qs ++ c ∷ post) ≡ false → c ≢ p
    ne [] e = ground (arith, e)
    ne (q ∷ qs) e = ne qs (ground arith)

ne-of-has : (c k : ℕ) (xs : List ℕ) → has c xs ≡ false → has k xs ≡ true → c ≢ k
ne-of-has c k xs out inside e = absurd (cc (subst (λ j. has j xs ≡ false) e out))

-- The children behind the reaping of one of them.
pub reap-Chain :
    (parent c : ℕ) (pre post : List ℕ) (s : State)
    → Chain (sibling_links s) (s.process_table parent).first_child (pre ++ c ∷ post)
    → Back (sibling_back s) none (pre ++ c ∷ post)
    → Distinct (pre ++ c ∷ post)
    → c ≢ parent
    → (s.process_table c).pid % max_proc ≡ c
    → (t : State) × (reap parent c s ≡ t)
      × Chain (sibling_links t) (t.process_table parent).first_child (pre ++ post)
      × (t.process_table c ≡ blank)
unfolding before_step
reap-Chain parent c [] post s chain back d ne own =
    let u = before_step parent c s none in
    let t = put_process c blank (set_state c removed (unlink_child_next c u)) in
    let out = Distinct-middle [] c post d in
    (
      t,
      reap-cleared parent c s u (unlink_child_prev-before_step parent c s none back.0)
          (ap (λ n. n % max_proc) (before_step-pid parent c s none c) ∙ own),
      subst (λ k. Chain (sibling_links t) k post)
          (sym (
            cleared-field (λ x. x.first_child) c u parent ne (λ x q. refl)
            ∙ ap (λ x. x.first_child) (update_self s.process_table parent _)))
          (Chain-frame (sibling_links s) (sibling_links t) (sibling_links s c) post
            (λ k e.
              cleared-field (λ x. x.next_sibling) c u k (ne-of-has c k post out e) (λ x q. refl)
              ∙ update_field s.process_table (λ x. x.next_sibling) parent _ refl k)
            chain.1),
      update_self (set_state c removed (unlink_child_next c u)).process_table c blank,
    )
reap-Chain parent c (p ∷ ps) post s chain back d ne own =
    let last = last_of p ps in
    let u = before_step parent c s (some last) in
    let t = put_process c blank (set_state c removed (unlink_child_next c u)) in
    let out = Distinct-middle (p ∷ ps) c post d in
    let before = Back-last (sibling_back s) none p ps c post back in
    (
      t,
      reap-cleared parent c s u (unlink_child_prev-before_step parent c s (some last) before)
          (ap (λ n. n % max_proc) (before_step-pid parent c s (some last) c) ∙ own),
      subst (λ k. Chain (sibling_links t) k ((p ∷ ps) ++ post))
          (sym (
            cleared-field (λ x. x.first_child) c u parent ne (λ x q. refl)
            ∙ update_field s.process_table (λ x. x.first_child) last _ refl parent))
          (Chain-frame (sibling_links u) (sibling_links t) _ ((p ∷ ps) ++ post)
            (λ k e.
              cleared-field (λ x. x.next_sibling) c u k (ne-of-has c k ((p ∷ ps) ++ post) out e)
                (λ x q. refl))
            (Chain-remove (sibling_links s) (sibling_links u) (s.process_table parent).first_child p
              ps c post chain d
              (field_update s.process_table (λ x. x.next_sibling) last _ last
                ∙ update_self (sibling_links s) last (sibling_links s c))
              (λ k n.
                field_update s.process_table (λ x. x.next_sibling) last _ k
                ∙ update_ne (sibling_links s) (sibling_links s c) (λ e. n (sym e))))),
      update_self (set_state c removed (unlink_child_next c u)).process_table c blank,
    )
