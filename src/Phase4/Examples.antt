-- ===== src/Phase4/Examples.antt =====
-- The theorems on phase4a/phase4.c at concrete states.
use process_control.Base.{
  ℕ, ◌+◌, ◌/◌, ◌%◌, ◌==◌, if◌then◌else◌, ◌≡◌, refl, false, Option, none, some, List, [], ◌∷◌, ◌++◌,
  arith,
}
use process_control.Base.Int.{ℤ, pos, minus_one, pos_part}
use process_control.Base.Run.{done, settle, calls}
use process_control.Base.Run.Laws.{replay}
use process_control.Base.Chain.{Chain}
use process_control.Base.Sysargs.{Sysargs}
use process_control.Phase4.State.{
  Sleeper, State, Usloss, read_sector, seek_track, request, mbox_recv, mbox_send, wait_device,
  term_dev, control,
}
use process_control.Phase4.Sleep.{add_to_priority_queue, remove_from_priority_queue}
use process_control.Phase4.Sleep.Insertion.{IsSorted}
use process_control.Phase4.Sleep.Order.{sleep_links, end_of, add_to_priority_queue-insert}
use process_control.Phase4.Sleep.Waking.{
  remove_from_priority_queue-due, remove_from_priority_queue-stale,
}
use process_control.Phase4.Terminal.{our_term_write, term_rounds}
use process_control.Phase4.Terminal.Writing.{our_term_write-chars}
use process_control.Phase4.Terminal.Reading.{hands_over, term_rounds-line}
use process_control.Phase4.Terminal.Lines.{KeepsRoom, term_rounds-room}
use process_control.Phase4.Disk.{transfer, disk_transfer}
use process_control.Phase4.Disk.Places.{place_at, completing, transfer-places}
use process_control.Phase4.Disk.Errors.{failing, disk_transfer-keeps_lock}

abbrev sleeper : ℕ → ℕ → Option ℕ → Sleeper
sleeper pid end_sleep next = record {
  pid = pos pid;
  mbox_id = pos (pid + 10);
  end_sleep = pos end_sleep;
  next = next;
}

-- Processes 1 and 2 sleep, until 300 and 500; 3 is to sleep until 400.
abbrev pub two_asleep : ℕ → State
two_asleep ticks = record {
  global_clock_ticks = ticks;
  shadow_process_table = λ i.
      if i == 1
      then sleeper 1 300 (some 2)
      else if i == 2
      then sleeper 2 500 none
      else sleeper i 400 none;
  priority_queue_head = some 1;
  read_buffer_size = minus_one;
  disk_track = λ _. pos 0;
  disks = λ _. record { status = pos 0; is_complete = false };
  term_lock_mbox = λ i. pos i;
  term_read_mbox = λ i. pos (4 + i);
  term_write_mbox = λ i. pos (8 + i);
  disk_size_mbox = λ i. pos (12 + i);
  disk_lock = λ i. pos (14 + i);
  disk_mbox = λ i. pos (16 + i);
  daemon_pids = λ i. pos i;
}

-- The states of a device as USLOSS numbers them.
abbrev pub usloss : Usloss
usloss = record {
  dev_ready = pos 0;
  dev_busy = pos 1;
  dev_error = pos 2;
  stat_xmit = λ status. pos 0;
  stat_recv = λ status. status;
  stat_char = λ status. 65;
  left_over = pos 0;
  unset = pos 0;
}

abbrev args_of : ℤ → Sysargs
args_of track = record { arg1 = pos 4096; arg2 = pos 2; arg3 = track; arg4 = pos 3; arg5 = pos 1 }

add_to_priority_queue-insert_example :
    (t : State) × (add_to_priority_queue 3 (two_asleep 0) ≡ some t)
    × Chain (sleep_links t) t.priority_queue_head (1 ∷ 3 ∷ 2 ∷ [])
    × (IsSorted (end_of (two_asleep 0)) (1 ∷ 2 ∷ []) → IsSorted (end_of t) (1 ∷ 3 ∷ 2 ∷ []))
add_to_priority_queue-insert_example =
    add_to_priority_queue-insert 3 (1 ∷ 2 ∷ []) (two_asleep 0) (refl, (refl, refl))
      (refl, (refl, tt)) refl (omega arith) (λ e. refl)

remove_from_priority_queue-due_example :
    (t : State) × (calls (λ e u. (pos 0, u)) (remove_from_priority_queue 5 (two_asleep 4))
      ≡ mbox_recv (pos 11) ∷ [])
    × (settle (λ e u. (pos 0, u)) (remove_from_priority_queue 5 (two_asleep 4)) ≡ done tt t)
    × Chain (sleep_links t) t.priority_queue_head (2 ∷ [])
remove_from_priority_queue-due_example =
    remove_from_priority_queue-due 5 (pos 0) (1 ∷ 2 ∷ []) (two_asleep 4) (refl, (refl, refl))
      (omega arith)

remove_from_priority_queue-stale_example :
    (t u : State) × (settle (λ e v. (pos 0, v)) (remove_from_priority_queue 5 (two_asleep 9))
      ≡ done tt t)
    × (t.priority_queue_head ≡ none)
    × (add_to_priority_queue 1 t ≡ some u)
    × Chain (sleep_links u) u.priority_queue_head (1 ∷ 2 ∷ [])
remove_from_priority_queue-stale_example =
    remove_from_priority_queue-stale 5 (pos 0) 1 (2 ∷ []) (two_asleep 9) (refl, (refl, refl))
      (omega arith) refl

term_rounds-room_example : KeepsRoom (term_rounds 3 usloss 0 (65 ∷ 66 ∷ []) (two_asleep 0))
term_rounds-room_example = term_rounds-room 3 usloss 0 (65 ∷ 66 ∷ []) (two_asleep 0) (omega arith)

-- The fields of a status word: the receiver in bits 0 and 1, the transmitter in bits 2 and 3, and the
-- character in bits 8 to 15.
abbrev terminals : Usloss
terminals = record usloss {
  stat_recv = λ status. pos (pos_part status % 4);
  stat_xmit = λ status. pos (pos_part status / 4 % 4);
  stat_char = λ status. pos_part status / 256 % 256;
}

-- "ab", between two ticks of the clock.
abbrev keys : List (ℤ × State)
keys = (pos 24837, two_asleep 0) ∷ (pos 25093, two_asleep 1) ∷ []

term_rounds-line_example :
    replay ((keys ++ (pos 2565, two_asleep 2) ∷ [])) (term_rounds 4 terminals 0 [] (two_asleep 0))
    ≡ some (
      wait_device term_dev 0 ∷ wait_device term_dev 0 ∷ wait_device term_dev 0 ∷ [],
      hands_over terminals 0 (97 ∷ 98 ∷ 10 ∷ []) (two_asleep 2) 1,
    )
term_rounds-line_example =
    term_rounds-line terminals 0 keys (pos 2565) (two_asleep 2) 1 [] (two_asleep 0)
      (
        (record { receives = refl; not_ready = refl; not_wrong = refl }),
        omega arith,
        refl,
        ((record { receives = refl; not_ready = refl; not_wrong = refl }), omega arith, refl, tt),
      )
      (record { receives = refl; not_ready = refl; not_wrong = refl }) refl (omega arith)

-- The last sector of track 0, and the first of track 1.
transfer-places_example :
    calls
      (completing 1 (pos 0) (pos 0))
      (transfer 2 usloss read_sector 1 (pos 0) (place_at 15 (pos 0) (pos 4096) 0) (two_asleep 0))
    ≡ request (pos 1) read_sector (pos 15) (pos 4096)
      ∷ mbox_recv (pos 17)
      ∷ request (pos 1) seek_track (pos 1) (pos 0)
      ∷ mbox_recv (pos 17)
      ∷ request (pos 1) read_sector (pos 0) (pos 4608)
      ∷ mbox_recv (pos 17)
      ∷ []
transfer-places_example =
    transfer-places usloss read_sector 1 (pos 0) (pos 0) refl refl refl 2 (pos 0) 15 (pos 0)
      (pos 4096) 0 (two_asleep 0)

disk_transfer-keeps_lock_example :
    (calls
        (failing usloss 1 (pos 0))
        (disk_transfer usloss read_sector 1 3 (args_of (pos 5)) (two_asleep 0))
      ≡ mbox_send (pos 15) ∷ request (pos 1) seek_track (pos 5) (pos 0) ∷ mbox_recv (pos 17) ∷ [])
    × ((t : State) × (settle
            (failing usloss 1 (pos 0))
            (disk_transfer usloss read_sector 1 3 (args_of (pos 5)) (two_asleep 0))
          ≡ done (record (args_of (pos 5)) { arg1 = pos 2; arg4 = pos 0 }) t))
disk_transfer-keeps_lock_example =
    disk_transfer-keeps_lock usloss 1 3 1 (pos 0) (args_of (pos 5)) (two_asleep 0) refl read_sector
      refl

-- "hi" at terminal 2.
our_term_write-chars_example :
    (calls (λ e t. (pos 0, t)) (our_term_write (104 ∷ 105 ∷ []) (args_of (pos 2)) (two_asleep 0))
      ≡ mbox_send (pos 2)
        ∷ mbox_recv (pos 10)
        ∷ control (pos 2) (pos 26631)
        ∷ mbox_recv (pos 10)
        ∷ control (pos 2) (pos 26887)
        ∷ mbox_recv (pos 2)
        ∷ [])
    × (settle (λ e t. (pos 0, t)) (our_term_write (104 ∷ 105 ∷ []) (args_of (pos 2)) (two_asleep 0))
        ≡ done (record (args_of (pos 2)) { arg4 = pos 0; arg2 = pos 2 }) (two_asleep 0))
our_term_write-chars_example =
    our_term_write-chars (λ e. pos 0) 2 (104 ∷ 105 ∷ []) (args_of (pos 2)) (two_asleep 0) refl
      (omega arith) (omega arith, (omega arith, tt))
