-- ===== src/Phase1/Create/Children.antt =====
-- The child that fork1 of phase1b/phase1.c puts in front of its parent's children.
use process_control.Base.{
  ℕ, ◌≡◌, ◌≢◌, refl, ap, sym, ◌∙◌, subst, true, false, Option, none, some, List, [], ◌∷◌, has,
  update, update_self, update_ne, update_field, field_update,
}
use process_control.Base.Chain.{Chain, Chain-frame}
use process_control.Phase1.State.{State, put_process}
use process_control.Phase1.Queue.Invariant.{WellQueued}
use process_control.Phase1.Dispatch.Blocking.{put_process-WellQueued}
use process_control.Phase1.Create.{push_child}
use process_control.Phase1.Family.Reaping.{sibling_links}

module _ (parent child : ℕ) (s : State) (ne : child ≢ parent) where
  -- The child knows its parent.
  abbrev known : State
  known = put_process child (record (s.process_table child) { parent = some parent }) s

  abbrev led : ℕ → State
  led first =
      put_process first (record (known.process_table first) { prev_sibling = some child }) known

  abbrev linked : ℕ → State
  linked first =
      put_process child (record ((led first).process_table child) { next_sibling = some first })
        (led first)

  abbrev heading : State → State
  heading t = put_process parent (record (t.process_table parent) { first_child = some child }) t

  -- The state behind push_child, by the first child of before.
  abbrev pushed : Option ℕ → State
  pushed o = elim o [ none ↦ heading known | some first ↦ heading (linked first) ]

  heading-WellQueued :
      (t : State) (queues : ℕ → List ℕ) → WellQueued t queues → WellQueued (heading t) queues
  heading-WellQueued t queues well =
      put_process-WellQueued parent (record (t.process_table parent) { first_child = some child }) t
        queues refl refl refl well

  known-WellQueued : (queues : ℕ → List ℕ) → WellQueued s queues → WellQueued known queues
  known-WellQueued queues well =
      put_process-WellQueued child (record (s.process_table child) { parent = some parent }) s
        queues refl refl refl well

  pushed-WellQueued :
      (o : Option ℕ) (queues : ℕ → List ℕ) → WellQueued s queues → WellQueued (pushed o) queues
  pushed-WellQueued none queues well =
      heading-WellQueued known queues (known-WellQueued queues well)
  pushed-WellQueued (some first) queues well = heading-WellQueued (linked first) queues (
      put_process-WellQueued child
        (record ((led first).process_table child) { next_sibling = some first }) (led first) queues
        refl refl refl
        (put_process-WellQueued first
          (record (known.process_table first) { prev_sibling = some child }) known queues refl refl
          refl (known-WellQueued queues well)))

  heading-links : (t : State) (k : ℕ) → sibling_links (heading t) k ≡ sibling_links t k
  heading-links t k =
      update_field t.process_table (λ x. x.next_sibling) parent
        (record (t.process_table parent) { first_child = some child }) refl k

  heading-first : (t : State) → ((heading t).process_table parent).first_child ≡ some child
  heading-first t = ap (λ x. x.first_child) (update_self t.process_table parent _)

  known-links : (k : ℕ) → sibling_links known k ≡ sibling_links s k
  known-links k =
      update_field s.process_table (λ x. x.next_sibling) child
        (record (s.process_table child) { parent = some parent }) refl k

  linked-links :
      (first k : ℕ) → sibling_links (linked first) k ≡ update (sibling_links s) child (some first) k
  linked-links first k =
      field_update (led first).process_table (λ x. x.next_sibling) child
        (record ((led first).process_table child) { next_sibling = some first }) k
      ∙ (λ j.
          update
            (λ m.
              (update_field known.process_table (λ x. x.next_sibling) first
                    (record (known.process_table first) { prev_sibling = some child }) refl m
                  ∙ known-links m)
                j)
            child (some first) k)

  pushed-Chain :
      (o : Option ℕ) (xs : List ℕ)
      → Chain (sibling_links s) o xs
      → has child xs ≡ false
      → sibling_links s child ≡ none
      → Chain (sibling_links (pushed o)) ((pushed o).process_table parent).first_child (child ∷ xs)
  pushed-Chain none [] c fresh clear =
      (heading-first known, heading-links known child ∙ known-links child ∙ clear)
  pushed-Chain none (x ∷ xs) c fresh clear = cc (c.0)
  pushed-Chain (some first) [] c fresh clear = cc (c)
  pushed-Chain (some first) (x ∷ xs) c fresh clear = (
    heading-first (linked first),
    subst (λ h. Chain (sibling_links (heading (linked first))) h (x ∷ xs)) (sym at_child)
        (Chain-frame (sibling_links s) (sibling_links (heading (linked first))) (some first)
          (x ∷ xs)
          (λ k inside.
            heading-links (linked first) k
            ∙ linked-links first k
            ∙ update_ne (sibling_links s) (some first) (apart k inside))
          c),
  )
    where
      at_child : sibling_links (heading (linked first)) child ≡ some first
      at_child =
          heading-links (linked first) child
          ∙ linked-links first child
          ∙ update_self (sibling_links s) child (some first)

      apart : (k : ℕ) → has k (x ∷ xs) ≡ true → child ≢ k
      apart k inside e = no (ap (λ m. has m (x ∷ xs)) e)
        where
          no : has child (x ∷ xs) ≡ has k (x ∷ xs) → ⊥
          no f = cc

  known-first : (known.process_table parent).first_child ≡ (s.process_table parent).first_child
  known-first =
      update_field s.process_table (λ x. x.first_child) child
        (record (s.process_table child) { parent = some parent }) refl parent

  pub push_child-WellQueued :
      (queues : ℕ → List ℕ) → WellQueued s queues → WellQueued (push_child parent child s) queues
  push_child-WellQueued queues well =
      pushed-WellQueued (known.process_table parent).first_child queues well

  -- The child is at the front of the children, if it was not among them and had no sibling.
  pub push_child-Chain :
      (xs : List ℕ)
      → Chain (sibling_links s) (s.process_table parent).first_child xs
      → has child xs ≡ false
      → sibling_links s child ≡ none
      → let t = push_child parent child s in
        Chain (sibling_links t) (t.process_table parent).first_child (child ∷ xs)
  push_child-Chain xs c fresh clear =
      pushed-Chain (known.process_table parent).first_child xs
        (subst (λ h. Chain (sibling_links s) h xs) (sym known-first) c) fresh clear
