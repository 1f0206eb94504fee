-- ===== src/Phase2/Slots/Search.antt =====
-- The two searches for a free slot, and the mailbox that MboxCreate makes.
use process_control.Base.{
  ℕ, ◌+◌, ◌%◌, ◌≤◌, ◌<◌, ◌≡◌, refl, ◌⊎◌, inl, inr, Bool, true, false, Option, none, some, arith,
  Option-cases,
}
use process_control.Base.Int.{ℤ, pos, minus_one}
use process_control.Base.Probe.{probe, probe-Found, probe-full}
use process_control.Phase2.State.{Mb, State, max_mbox, max_slots, put_mb}
use process_control.Phase2.Slots.{find_open_message_slot}
use native.Mathlib.Nat.{mod-lt}

abbrev pub in_use : State → ℕ → Bool
in_use s i = (s.message_slots i).is_initialized

-- What a search for a message slot leaves: only the counter may differ.
abbrev pub AtCounter : State → ℕ → State → Type 0
AtCounter s i t =
    (in_use s i ≡ false)
    × (i < max_slots)
    × (i ≡ t.message_id_counter % max_slots)
    × (t ≡ record s { message_id_counter = t.message_id_counter })

-- The search for a message slot gives a free slot of the table, to which the counter then points,
-- or none, and then every slot of the table is in use. It changes nothing but the counter.
pub find_open_message_slot_lem :
    (s : State)
    → let r = find_open_message_slot s in
      ((i : ℕ) × (r.0 ≡ some i) × AtCounter s i r.1)
      ⊎ ((r.0 ≡ none)
          × (r.1 ≡ record s { message_id_counter = r.1.message_id_counter })
          × ((j : ℕ) → j < max_slots → in_use s j ≡ true))
unfolding find_open_message_slot
find_open_message_slot_lem s = elim (Option-cases search.0) [
  | inl e ↦
      rw (e, find_open_message_slot)
        (inr (refl, refl, probe-full (in_use s) max_slots s.message_id_counter e))
  | inr (i, e) ↦
      let f = probe-Found (in_use s) max_slots max_slots s.message_id_counter i e in
      rw (e, find_open_message_slot)
        (inl (i, refl, (f.is_free, rw f.at_counter (mod-lt _ (omega arith)), f.at_counter, refl)))
]
  where
    search : Option ℕ × ℕ
    search = probe (in_use s) max_slots max_slots s.message_id_counter

-- A slot that is found is free and in the range, and those before it are taken.
record FirstFree (table : ℕ → Mb) (rounds i slot : ℕ) : Type 0 where
  is_free : (table slot).is_initialized ≡ false
  from : i ≤ slot
  below : slot < i + rounds
  taken : (j : ℕ) → i ≤ j → j < slot → (table j).is_initialized ≡ true

-- A mailbox in use with the given sizes, all of its slots available, no message in it and nobody
-- waiting at it.
pub record IsEmptyMb (slot num_slots slot_size : ℕ) (mb : Mb) : Type 0 where
  pub in_use_now : mb.is_initialized ≡ true
  pub numbered : mb.id ≡ slot
  pub live : mb.released ≡ false
  pub slots : mb.mail_slot_limit ≡ pos num_slots
  pub size : mb.message_size_limit ≡ pos slot_size
  pub available : mb.mail_slots_available ≡ pos num_slots
  pub no_mail : mb.mail_slot_queue_head ≡ none
  pub no_consumer : mb.consumer_queue_head ≡ none
  pub no_producer : mb.producer_queue_head ≡ none

-- What MboxCreate answers: it refuses and changes nothing, or it fills the lowest free slot.
pub data Created (num_slots slot_size : ℕ) (s : State) (r : ℤ × State) : Type 0 where
  too_many : max_slots < num_slots → r ≡ (minus_one, s) → Created num_slots slot_size s r
  table_full :
      ((j : ℕ) → j < max_mbox → (s.mb_table j).is_initialized ≡ true)
      → r ≡ (minus_one, s)
      → Created num_slots slot_size s r
  made :
      (slot : ℕ) (mb : Mb)
      → num_slots ≤ max_slots
      → slot < max_mbox
      → (s.mb_table slot).is_initialized ≡ false
      → ((j : ℕ) → j < slot → (s.mb_table j).is_initialized ≡ true)
      → IsEmptyMb slot num_slots slot_size mb
      → r ≡ (pos slot, put_mb slot mb s)
      → Created num_slots slot_size s r
