-- ===== src/Phase2/Examples.antt =====
-- Concrete mailboxes, tests of the model of phase2/phase2.c on them, and the theorems at them.
use process_control.Base.{ℕ, ◌≡◌, inr, refl, Bool, true, false, none, [], ◌∷◌, arith}
use process_control.Base.Int.{ℤ, pos}
use process_control.Base.Run.{Run, done}
use process_control.Base.Probe.{probe}
use process_control.Phase2.State.{Call, Pointer, State, no_handler, unset}
use process_control.Phase2.Slots.{
  create_shadow_process, find_mb_slot, find_open_mb_table_slot, find_open_message_slot, mbox_create,
  new_mb, new_process,
}
use process_control.Phase2.Queue.{add_to_mail_queue}
use process_control.Phase2.Mailbox.Cond.{cond_enqueue, mbox_cond_send}
use process_control.Phase2.Mailbox.Contents.{Holds}
use process_control.Phase2.Mailbox.Queueing.{CanSend, mbox_cond_send-append}
use process_control.Phase2.Device.{phase2_init}

-- The static data before the start: all zero.
abbrev pub zeroed : State
zeroed = record {
  message_id_counter = 0;
  last_message = 0;
  shadow_process_table = λ i. new_process 0;
  mb_table = λ i. record (new_mb 0 (pos 0) (pos 0)) { is_initialized = false };
  message_slots = λ i. record {
    id = 0;
    is_initialized = false;
    message_size_limit = pos 0;
    message = none;
    next_message = none;
    prev_message = none;
  };
  vectors = record {
    clock_int = no_handler;
    term_int = no_handler;
    syscall_int = no_handler;
    system_call_vec = λ i. unset;
  };
}

-- Behind the start, and with mailbox 7 made, of two slots of ten bytes.
unfoldable abbrev pub booted : State
unfolding phase2_init mbox_create find_open_mb_table_slot find_mb_slot
booted = phase2_init zeroed

unfoldable abbrev pub boxed : State
unfolding phase2_init mbox_create find_open_mb_table_slot find_mb_slot
boxed = (mbox_create (pos 2) (pos 10) booted).1

boxed_slot : (mbox_create (pos 2) (pos 10) booted).0 ≡ pos 7
unfolding phase2_init mbox_create find_open_mb_table_slot find_mb_slot
boxed_slot = refl

abbrev pub plenty : ℤ → Bool
plenty n = true

abbrev pub hello : Pointer
hello = record { address = 4096; bytes = 104 ∷ 105 ∷ 33 ∷ [] }

-- Nobody else runs during a call.
abbrev pub quiet : Call → State → Unit {0} × State
quiet e s = (tt, s)

boxed-Holds : Holds boxed 7 [] []
unfolding phase2_init mbox_create find_open_mb_table_slot find_mb_slot
boxed-Holds = record {
  mail = record { chain = refl; distinct = tt; short = omega arith };
  contents = tt;
  is_open = refl;
}

boxed-CanSend : CanSend plenty boxed 7 hello 2
unfolding phase2_init mbox_create find_open_mb_table_slot find_mb_slot
boxed-CanSend = record {
  in_range = omega arith;
  not_null = inr (omega arith);
  readable = omega arith;
  small = refl;
  available = refl;
  alone = refl;
  memory = refl;
  slot = (0, omega arith, refl);
}

mbox_cond_send-append_example :
    (u : State) × (m : ℕ) × (mbox_cond_send plenty (pos 7) hello (pos 2) boxed ≡ done (pos 0) u)
    × Holds u 7 (m ∷ []) ((104 ∷ 105 ∷ []) ∷ [])
mbox_cond_send-append_example =
    mbox_cond_send-append plenty boxed 7 hello 2 boxed-Holds boxed-CanSend (omega arith)

-- Where a routine that does not wait ends.
abbrev pub final : {A : Type 0} → Run State Call (Unit {0}) A → State
final (Run.done a s) = s
final (Run.yields e s k) = s
final (Run.halted c s) = s
final (Run.fault s) = s
final (Run.out_of_fuel s) = s

-- Mailbox 7 with the message "hi" in slot 0, and the shadow processes 54 and 5 made.
unfoldable abbrev pub loaded : State
unfolding phase2_init mbox_create find_open_mb_table_slot find_mb_slot mbox_cond_send
    find_open_message_slot create_shadow_process cond_enqueue add_to_mail_queue probe
loaded =
    create_shadow_process 5
      (create_shadow_process 54 (final (mbox_cond_send plenty (pos 7) hello (pos 2) boxed)))

pub loaded-Holds : Holds loaded 7 (0 ∷ []) ((104 ∷ 105 ∷ []) ∷ [])
unfolding loaded
loaded-Holds = record {
  mail = record { chain = (refl, refl); distinct = (refl, tt); short = omega arith };
  contents = (refl, refl, refl, tt);
  is_open = refl;
}
