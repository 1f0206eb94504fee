-- ===== src/Phase2/Queue/Fifo.antt =====
-- The queues of a mailbox as lists: each of the three `addTo…Queue` appends.
use process_control.Base.{
  ℕ, ◌+◌, ◌≤◌, ◌≡◌, refl, ◌≢◌, false, some, List, [], ◌∷◌, ◌++◌, arith, update_self, length, has,
}
use process_control.Base.Int.{negsuc, ◌+ℤ◌}
use process_control.Base.Chain.{
  Chain, Distinct, walk_last, last_of, walk_last-Chain, Chain-append, has-last_of, Distinct-append,
}
use process_control.Phase2.State.{State, max_slots}
use process_control.Phase2.Queue.{mail_links, add_to_mail_queue, mail_first, mail_behind}

-- The mail queue of mailbox `b` holds the slots `xs`, oldest first.
pub record HasMail (s : State) (b : ℕ) (xs : List ℕ) : Type 0 where
  pub chain : Chain (mail_links s) (s.mb_table b).mail_slot_queue_head xs
  pub distinct : Distinct xs
  pub short : length xs ≤ max_slots

-- What an append to the mail queue changes: the queue, the slots available and links.
pub record MailAppended (s : State) (b m : ℕ) (xs : List ℕ) (t : State) : Type 0 where
  pub chain : Chain (mail_links t) (t.mb_table b).mail_slot_queue_head (xs ++ m ∷ [])
  pub distinct : Distinct (xs ++ m ∷ [])
  pub available :
      (t.mb_table b).mail_slots_available ≡ (s.mb_table b).mail_slots_available +ℤ negsuc 0
  pub consumers : (t.mb_table b).consumer_queue_head ≡ (s.mb_table b).consumer_queue_head
  pub opened : (t.mb_table b).is_initialized ≡ (s.mb_table b).is_initialized
  pub others : (a : ℕ) → a ≢ b → t.mb_table a ≡ s.mb_table a
  pub processes : t.shadow_process_table ≡ s.shadow_process_table
  pub payloads : (i : ℕ) → (t.message_slots i).message ≡ (s.message_slots i).message
  pub sizes :
      (i : ℕ) → (t.message_slots i).message_size_limit ≡ (s.message_slots i).message_size_limit
  pub in_use : (i : ℕ) → (t.message_slots i).is_initialized ≡ (s.message_slots i).is_initialized

-- addToMailQueue puts a message that is not in the queue behind those that are, takes one slot, and
-- changes no other mailbox, no process, no payload or its size, and no message's being in use.
pub add_to_mail_queue-MailAppended :
    (s : State) (b m : ℕ) (xs : List ℕ)
    → HasMail s b xs
    → has m xs ≡ false
    → (t : State) × (add_to_mail_queue b m s ≡ some t) × MailAppended s b m xs t
unfolding add_to_mail_queue
add_to_mail_queue-MailAppended s b m [] q new = (
  mail_first b m s,
  simp (q.chain, add_to_mail_queue),
  record {
    chain = (ground arith, ground arith);
    distinct = (refl, tt);
    available = ground arith;
    consumers = ground arith;
    opened = ground arith;
    others = λ a ne. ground arith;
    processes = refl;
    payloads = λ i. ground arith;
    sizes = λ i. ground arith;
    in_use = λ i. ground arith;
  },
)
add_to_mail_queue-MailAppended s b m (p ∷ xs) q new =
    let end = last_of p xs in
    let walk : walk_last (max_slots + 1) (mail_links s) p ≡ some end =
      walk_last-Chain (max_slots + 1) (mail_links s) p xs q.chain.1 (omega (arith, q.short)) in
    let apart : end ≢ m = λ e. absurd (ground (arith, has-last_of p xs)) in
    (
      mail_behind b end m s,
      simp (q.chain.0, walk, add_to_mail_queue),
      record {
        chain = rw (update_self s.mb_table b) (
            rw q.chain.0 (
              Chain-append (mail_links s) (mail_links (mail_behind b end m s)) p m xs q.chain.1
                q.distinct new (ground arith) (ground arith) (λ i h k. ground arith)));
        distinct = Distinct-append (p ∷ xs) m q.distinct new;
        available = ground arith;
        consumers = ground arith;
        opened = ground arith;
        others = λ a ne. ground arith;
        processes = refl;
        payloads = λ i. ground arith;
        sizes = λ i. ground arith;
        in_use = λ i. ground arith;
      },
    )
