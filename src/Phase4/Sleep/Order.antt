-- ===== src/Phase4/Sleep/Order.antt =====
-- The queue of sleeping processes of phase4a/phase4.c as a list.
use process_control.Base.{
  ℕ, ◌+◌, ◌<◌, if◌then◌else◌, ◌≡◌, ◌≢◌, refl, ap, sym, ◌∙◌, subst, Bool, false, Option, none, some,
  List, [], ◌∷◌, length, has, arith, inl, inr, update_self, update_ne, update_field, field_update,
  Bool-cases,
}
use process_control.Base.Int.{ℤ}
use process_control.Base.Chain.{Links, Chain, Distinct, Chain-frame}
use process_control.Phase4.State.{State, max_proc}
use process_control.Phase4.Sleep.{leb_ℤ, last_not_after, set_link, set_head, add_to_priority_queue}
use process_control.Phase4.Sleep.Insertion.{
  IsSorted, insert, insert_behind, insert-IsSorted, stop, last_not_after-stop, has-stop,
  Chain-insert_behind,
}

abbrev pub sleep_links : State → Links
sleep_links s = λ i. (s.shadow_process_table i).next

-- When a process wakes.
abbrev pub end_of : State → ℕ → ℤ
end_of s i = (s.shadow_process_table i).end_sleep

set_link_self : (c : ℕ) (q : Option ℕ) (s : State) → sleep_links (set_link c q s) c ≡ q
set_link_self c q s =
    field_update s.shadow_process_table (λ x. x.next) c _ c ∙ update_self (sleep_links s) c q

set_link_ne :
    (c : ℕ) (q : Option ℕ) (s : State) (i : ℕ)
    → c ≢ i
    → sleep_links (set_link c q s) i ≡ sleep_links s i
set_link_ne c q s i ne =
    field_update s.shadow_process_table (λ x. x.next) c _ i ∙ update_ne (sleep_links s) q ne

-- The writes of addToPriorityQueue, by where the process goes.
abbrev as_head : ℕ → ℕ → State → State
as_head p h s = set_link p (some h) (set_head p s)

abbrev behind : ℕ → ℕ → State → State
behind p current s = set_link current (some p) (set_link p (sleep_links s current) s)

at_head : ℕ → State → Option ℕ → Option State
at_head p s none = some (set_head p s)
at_head p s (some h) =
    if leb_ℤ (end_of s p) (end_of s h)
    then some (as_head p h s)
    else elim (last_not_after (max_proc + 1) s.shadow_process_table (end_of s p) h) [
      | none ↦ none
      | some current ↦ some (behind p current s)
    ]

add_to_priority_queue-at_head :
    (p : ℕ) (s : State) → add_to_priority_queue p s ≡ at_head p s s.priority_queue_head
unfolding add_to_priority_queue at_head
add_to_priority_queue-at_head p s = go s.priority_queue_head
  where
    go :
        (o : Option ℕ)
        → (elim o [
          | none ↦ some (set_head p s)
          | some head ↦
              if leb_ℤ (s.shadow_process_table p).end_sleep (s.shadow_process_table head).end_sleep
              then some (set_link p (some head) (set_head p s))
              else elim (last_not_after
                  (max_proc + 1)
                  s.shadow_process_table
                  (s.shadow_process_table p).end_sleep
                  head) [
                    | none ↦ none
                    | some current ↦ some (
                        set_link current
                          (some p)
                          (set_link p (s.shadow_process_table current).next s))
                  ]
        ])
          ≡ at_head p s o
    go none = refl
    go (some h) = refl

-- The links do not say when a process wakes.
end_of-set_link : (c : ℕ) (q : Option ℕ) (s : State) → end_of (set_link c q s) ≡ end_of s
end_of-set_link c q s = λ i k. at k i
  where
    at : (k : ℕ) → end_of (set_link c q s) k ≡ end_of s k
    at k = update_field s.shadow_process_table (λ x. x.end_sleep) c _ refl k

module _ (p h : ℕ) (xs : List ℕ) (s : State)
    (c : Chain (sleep_links s) s.priority_queue_head (h ∷ xs)) (d : Distinct (h ∷ xs))
    (fresh : has p (h ∷ xs) ≡ false) where
  Chain-as_head : Chain (sleep_links (as_head p h s)) (some p) (p ∷ h ∷ xs)
  Chain-as_head =
      let t = as_head p h s in
      (
        refl,
        subst (λ k. Chain (sleep_links t) k (h ∷ xs))
            (sym (set_link_self p (some h) (set_head p s)))
            (Chain-frame (sleep_links s) (sleep_links t) (some h) (h ∷ xs)
              (λ i k. set_link_ne p (some h) (set_head p s) i (ground arith)) (refl, c.1)),
      )

  Chain-behind :
      let current = stop (end_of s) (end_of s p) h xs in
      Chain
        (sleep_links (behind p current s))
        s.priority_queue_head
        (h ∷ insert_behind (end_of s) p xs)
  Chain-behind =
      let current = stop (end_of s) (end_of s p) h xs in
      let t1 = set_link p (sleep_links s current) s in
      let ne : current ≢ p = λ e. absurd (ground (arith, has-stop (end_of s) (end_of s p) h xs)) in
      (
        c.0,
        Chain-insert_behind (sleep_links s) (sleep_links (behind p current s)) (end_of s) p h xs c.1
            d fresh (set_link_self current (some p) t1)
            (set_link_ne current (some p) t1 p ne ∙ set_link_self p (sleep_links s current) s)
            (λ i n m.
              set_link_ne current (some p) t1 i (λ e. n (sym e))
              ∙ set_link_ne p (sleep_links s current) s i (λ e. m (sym e))),
      )

-- A process that goes to sleep, and is not in the queue, which is a chain of distinct processes no
-- longer than the table, is put into it by the time it wakes; a queue in this order stays in this
-- order. In an empty queue its own link has to be NULL.
pub add_to_priority_queue-insert :
    (p : ℕ) (xs : List ℕ) (s : State)
    → Chain (sleep_links s) s.priority_queue_head xs
    → Distinct xs
    → has p xs ≡ false
    → length xs < max_proc + 1
    → (xs ≡ [] → sleep_links s p ≡ none)
    → (t : State) × (add_to_priority_queue p s ≡ some t)
      × Chain (sleep_links t) t.priority_queue_head (insert (end_of s) p xs)
      × (IsSorted (end_of s) xs → IsSorted (end_of t) (insert (end_of s) p xs))
unfolding at_head
add_to_priority_queue-insert p [] s c d fresh l clear = (
  set_head p s,
  add_to_priority_queue-at_head p s ∙ ap (at_head p s) c,
  (refl, clear refl),
  λ sorted. tt,
)
add_to_priority_queue-insert p (h ∷ xs) s c d fresh l clear =
    let es = end_of s in
    let current = stop es (es p) h xs in
    let found =
      last_not_after-stop (max_proc + 1) s.shadow_process_table (es p) h xs c.1 (omega arith) in
    elim (Bool-cases (leb_ℤ (es p) (es h))) [
      | inl e ↦ (
        as_head p h s,
        add_to_priority_queue-at_head p s ∙ ap (at_head p s) c.0 ∙ ap (pick s) e,
        subst (Chain (sleep_links (as_head p h s)) (some p)) (sym (ap placed e))
            (Chain-as_head p h xs s c d fresh),
        λ sorted.
            subst (λ f. IsSorted f (insert es p (h ∷ xs)))
              (sym (end_of-set_link p (some h) (set_head p s)))
              (insert-IsSorted es p (h ∷ xs) sorted),
      )
      | inr e ↦ (
        behind p current s,
        add_to_priority_queue-at_head p s
            ∙ ap (at_head p s) c.0
            ∙ ap (pick s) e
            ∙ ap (follow s) found,
        subst (Chain (sleep_links (behind p current s)) s.priority_queue_head) (sym (ap placed e))
            (Chain-behind p h xs s c d fresh),
        λ sorted.
            subst (λ f. IsSorted f (insert es p (h ∷ xs)))
              (sym (
                end_of-set_link current (some p) (set_link p (sleep_links s current) s)
                ∙ end_of-set_link p (sleep_links s current) s))
              (insert-IsSorted es p (h ∷ xs) sorted),
      )
    ]
  where
    placed : Bool → List ℕ
    placed b = if b then p ∷ h ∷ xs else h ∷ insert_behind (end_of s) p xs

    follow : State → Option ℕ → Option State
    follow s none = none
    follow s (some current) = some (behind p current s)

    pick : State → Bool → Option State
    pick s b =
        if b
        then some (as_head p h s)
        else follow s (last_not_after (max_proc + 1) s.shadow_process_table (end_of s p) h)

-- A process that goes to sleep while the queue is empty brings the processes with it that its own
-- link leads to.
pub add_to_priority_queue-stale :
    (p : ℕ) (ys : List ℕ) (s : State)
    → s.priority_queue_head ≡ none
    → Chain (sleep_links s) (sleep_links s p) ys
    → (t : State) × (add_to_priority_queue p s ≡ some t)
      × Chain (sleep_links t) t.priority_queue_head (p ∷ ys)
unfolding at_head
add_to_priority_queue-stale p ys s empty c =
    (set_head p s, add_to_priority_queue-at_head p s ∙ ap (at_head p s) empty, (refl, c))
