-- ===== src/Phase2/Slots.antt =====
-- Free slots and the creation of mailboxes: findOpenMbTableSlot, findOpenMessageSlot, MboxCreate,
-- createShadowProcess and getProcess of phase2/phase2.c.
pub mod Search
use process_control.Base.{
  ℕ, zero, suc, ◌+◌, ◌-◌, ◌%◌, ◌==◌, if◌then◌else◌, Bool, true, false, ◌||◌, not, Option, none,
  some,
}
use process_control.Base.Int.{ℤ, pos, minus_one, is_neg, ltb_ℤ}
use process_control.Base.Probe.{probe}
use process_control.Phase2.State.{
  max_proc, max_mbox, max_slots, Mb, Process, State, put_mb, put_process,
}

-- `while (i < MAXMBOX)` with `rounds` left.
unfoldable pub find_mb_slot : (ℕ → Mb) → ℕ → ℕ → Option ℕ
find_mb_slot table zero i = none
find_mb_slot table (suc rounds) i =
    let rest = find_mb_slot table rounds (i + 1) in
    if (table i).is_initialized then rest else some i

unfoldable pub find_open_mb_table_slot : State → Option ℕ
find_open_mb_table_slot s = find_mb_slot s.mb_table max_mbox 0

-- The counter is put back by one at a slot that is found.
unfoldable pub find_open_message_slot : State → Option ℕ × State
find_open_message_slot s =
    let (slot, counter) =
      probe (λ i. (s.message_slots i).is_initialized) max_slots max_slots s.message_id_counter in
    elim slot [
      | none ↦ (none, record s { message_id_counter = counter })
      | some i ↦ (some i, record s { message_id_counter = counter - 1 })
    ]

abbrev pub new_mb : ℕ → ℤ → ℤ → Mb
new_mb slot num_slots slot_size = record {
  is_initialized = true;
  id = slot;
  mail_slot_limit = num_slots;
  message_size_limit = slot_size;
  mail_slots_available = num_slots;
  mail_slot_queue_head = none;
  consumer_queue_head = none;
  producer_queue_head = none;
  released = false;
}

-- A value of -1 stands for every refusal.
unfoldable pub mbox_create : ℤ → ℤ → State → ℤ × State
mbox_create num_slots slot_size s =
    if is_neg num_slots || is_neg slot_size
    then (minus_one, s)
    else if ltb_ℤ (pos max_slots) num_slots || is_neg slot_size
    then (minus_one, s)
    else elim (find_open_mb_table_slot s) [
      | none ↦ (minus_one, s)
      | some slot ↦ (pos slot, put_mb slot (new_mb slot num_slots slot_size) s)
    ]

abbrev pub new_process : ℕ → Process
new_process pid = record {
  pid = pid;
  message = none;
  next_consumer_node = none;
  next_producer_node = none;
  blocked = false;
}

unfoldable pub create_shadow_process : ℕ → State → State
create_shadow_process pid s = put_process (pid % max_proc) (new_process pid) s

-- The slot of a process, which is made anew if it belongs to another process.
unfoldable pub get_process : ℕ → State → ℕ × State
unfolding create_shadow_process
get_process pid s = (
  pid % max_proc,
  if pid == (s.shadow_process_table (pid % max_proc)).pid then s else create_shadow_process pid s,
)
