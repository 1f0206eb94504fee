-- ===== src/Phase2/Device.antt =====
-- Device waiting, the handlers and the start of phase2/phase2.c: phase2_clockHandler,
-- phase2_check_io, phase2_init, syscallHandler, nullsys, termHandler and waitDevice.
pub mod Handlers
use process_control.Base.{
  ℕ, zero, suc, ◌+◌, ◌-◌, ◌==◌, leb, if◌then◌else◌, Bool, true, false, ◌&&◌, ◌||◌, not, Option,
  none, some, List, [], is_none,
}
use process_control.Base.Int.{ℤ, pos, minus_one, is_neg, ltb_ℤ, eqb_ℤ, ◌+ℤ◌}
use process_control.Base.Run.{Run, done, yields, halted, fault, out_of_fuel, bind}
use process_control.Phase2.State.{
  Call, Message, Pointer, Routine, State, Text, Vectors, max_slots, max_syscalls, console,
  invalid_syscall, unimplemented_syscall, wrong_unit, clock_handler, term_handler, syscall_handler,
  null_sys,
}
use process_control.Phase2.Slots.{mbox_create}
use process_control.Phase2.Mailbox.Send.{mbox_send}
use process_control.Phase2.Mailbox.Recv.{Answer, mbox_recv}

abbrev pub sizeof_int : ℕ
sizeof_int = 4

-- A number cast to a pointer.
abbrev pub as_pointer : ℕ → Pointer
as_pointer n = record { address = n; bytes = [] }

-- `now` is `currentTime()`.
unfoldable pub phase2_clock_handler : (ℤ → Bool) → ℕ → ℕ → State → Routine (Unit {0})
unfolding bind
phase2_clock_handler malloc me now s =
    if leb 100_000 (now - s.last_message)
    then bind (mbox_send malloc me (pos 0) (as_pointer now) (pos sizeof_int) s)
        (λ _ t. done tt (record t { last_message = now }))
    else done tt s

-- `for (i = 0; i < 7; i++)` with `rounds` left.
unfoldable pub check_io_from : State → ℕ → ℕ → Bool
check_io_from s zero i = false
check_io_from s (suc rounds) i =
    let mb = s.mb_table i in
    not (is_none mb.consumer_queue_head)
    || not (is_none mb.producer_queue_head)
    || check_io_from s rounds (i + 1)

unfoldable pub phase2_check_io : State → Bool
phase2_check_io s = check_io_from s 7 0

-- The mailboxes of the seven devices, of one slot each.
unfoldable pub create_device_mailboxes : ℕ → State → State
create_device_mailboxes zero s = s
create_device_mailboxes (suc rounds) s =
    create_device_mailboxes rounds (mbox_create (pos 1) (pos 100) s).1

abbrev pub fresh_message : ℕ → Message
fresh_message i = record {
  id = i;
  is_initialized = false;
  message_size_limit = pos 0;
  message = none;
  next_message = none;
  prev_message = none;
}

unfoldable pub phase2_init : State → State
unfolding create_device_mailboxes
phase2_init s =
    let t = create_device_mailboxes 7 s in
    record t {
      message_slots = λ i. if leb (suc i) max_slots then fresh_message i else t.message_slots i;
      vectors = record {
        clock_int = clock_handler;
        term_int = term_handler;
        syscall_int = syscall_handler;
        system_call_vec =
            λ i. if leb (suc i) max_syscalls then null_sys else t.vectors.system_call_vec i;
      };
    }

unfoldable pub nullsys : ℤ → State → Routine (Unit {0})
nullsys num s = yields (console (unimplemented_syscall num)) s (λ _ t. halted (pos 1) t)

-- `number` is the field of the argument record. The vector is not read.
unfoldable pub syscall_trap : ℤ → State → Routine (Unit {0})
unfolding nullsys
syscall_trap number s =
    if is_neg number || not (ltb_ℤ number (pos max_syscalls))
    then yields (console (invalid_syscall number)) s (λ _ t. halted (pos 1) t)
    else nullsys number s

-- `status` is what `USLOSS_DeviceInput` stores.
unfoldable pub term_trap : (ℤ → Bool) → ℕ → ℕ → ℕ → State → Routine (Unit {0})
unfolding bind
term_trap malloc me unit status s =
    bind (mbox_send malloc me (pos (unit + 3)) (as_pointer status) (pos sizeof_int) s)
      (λ _ t. done tt t)

-- The device types of usloss.h.
pub record Devices : Type 0 where
  pub clock_dev : ℕ
  pub disk_dev : ℕ
  pub term_dev : ℕ

-- One of the three tests of the type: a unit that the device does not have ends the call.
abbrev pub assign : Bool → Bool → ℤ → Option ℤ → Option ℤ
assign is_type has_unit value id = elim id [
  | none ↦ none
  | some other ↦ if is_type then (if has_unit then some value else none) else some other
]

-- The mailbox of a device, -1 for a type that is none of the three.
unfoldable pub device_mailbox : Devices → ℕ → ℤ → Option ℤ
device_mailbox dev type unit =
    assign (type == dev.term_dev) (not (is_neg unit || ltb_ℤ (pos 3) unit)) (unit +ℤ pos 3) (
      assign (type == dev.disk_dev) (not (not (eqb_ℤ unit (pos 1)) && not (eqb_ℤ unit (pos 0))))
        (unit +ℤ pos 1)
        (assign (type == dev.clock_dev) (eqb_ℤ unit (pos 0)) (pos 0) (some minus_one)))

-- `none` is a return without a wait; otherwise what was received, whose bytes are the status.
unfoldable pub wait_device : (ℤ → Bool) → Devices → ℕ → ℕ → ℤ → State → Routine (Option Answer)
unfolding bind
wait_device malloc dev me type unit s = elim (device_mailbox dev type unit) [
  | none ↦ yields (console wrong_unit) s (λ _ t. done none t)
  | some mbox_id ↦
      bind (mbox_recv malloc me mbox_id sizeof_int (pos sizeof_int) s) (λ a t. done (some a) t)
]
