-- ===== src/Phase4/Sleep.antt =====
-- The queue of sleeping processes: createShadowProcess, getProcess, addToPriorityQueue, ourSleep,
-- removeFromPriorityQueue and daemonProcessMain of phase4a/phase4.c.
pub mod Insertion
pub mod Order
pub mod Waking
pub mod Sleeping
use process_control.Base.{
  ℕ, zero, suc, ◌+◌, ◌*◌, if◌then◌else◌, Bool, ◌&&◌, not, Option, none, some,
}
use process_control.Base.Int.{ℤ, pos, ◌+ℤ◌, ltb_ℤ, eqb_ℤ, times, index_of, is_int}
use process_control.Base.Run.{done, yields, fault, out_of_fuel, bind}
use process_control.Base.Sysargs.{Sysargs}
use process_control.Phase4.State.{
  Sleeper, State, Routine, clock_dev, max_proc, mbox_create, mbox_send, mbox_recv, wait_device,
  put_sleeper,
}

-- `a <= b`.
abbrev pub leb_ℤ : ℤ → ℤ → Bool
leb_ℤ a b = not (ltb_ℤ b a)

abbrev pub set_end_sleep : ℕ → ℤ → State → State
set_end_sleep i seconds s =
    put_sleeper i (record (s.shadow_process_table i) { end_sleep = seconds }) s

unfoldable pub create_shadow_process : ℕ → ℤ → ℤ → State → Routine (Unit {0})
create_shadow_process i es pid s = yields (mbox_create 0 0) s (λ mbox t.
    done tt (put_sleeper i (record { pid = pid; mbox_id = mbox; end_sleep = es; next = none }) t))

-- The entry of the process, whose mailbox is kept if it is its own already.
unfoldable pub get_process : ℤ → ℤ → State → Routine ℕ
unfolding create_shadow_process bind
get_process pid seconds s = elim (index_of max_proc pid) [
  | none ↦ fault s
  | some i ↦
      if eqb_ℤ pid (s.shadow_process_table i).pid
      then done i (set_end_sleep i seconds s)
      else bind (create_shadow_process i seconds pid s) (λ _ t. done i (set_end_sleep i seconds t))
]

-- `while (current->next != NULL && current->next->endSleep <= priority)`.
unfoldable pub last_not_after : ℕ → (ℕ → Sleeper) → ℤ → ℕ → Option ℕ
last_not_after zero table priority current = none
last_not_after (suc fuel) table priority current = elim (table current).next [
  | none ↦ some current
  | some q ↦
      let rest = last_not_after fuel table priority q in
      if leb_ℤ (table q).end_sleep priority then rest else some current
]

abbrev pub set_link : ℕ → Option ℕ → State → State
set_link i q s = put_sleeper i (record (s.shadow_process_table i) { next = q }) s

abbrev pub set_head : ℕ → State → State
set_head p s = record s { priority_queue_head = some p }

-- In an empty queue the link of the process stays what it was. `none`: the queue has no end.
unfoldable pub add_to_priority_queue : ℕ → State → Option State
unfolding last_not_after
add_to_priority_queue p s = elim s.priority_queue_head [
  | none ↦ some (set_head p s)
  | some head ↦
      if leb_ℤ (s.shadow_process_table p).end_sleep (s.shadow_process_table head).end_sleep
      then some (set_link p (some head) (set_head p s))
      else elim (last_not_after (max_proc + 1) s.shadow_process_table
          (s.shadow_process_table p).end_sleep head) [
            | none ↦ none
            | some current ↦
                some
                  (set_link current (some p) (set_link p (s.shadow_process_table current).next s))
          ]
]

-- The three values that ourSleep computes fit an `int`.
abbrev pub in_time : ℤ → State → Bool
in_time seconds s =
    is_int (times 1000 seconds)
    && is_int (pos (s.global_clock_ticks * 100))
    && is_int (times 1000 seconds +ℤ pos (s.global_clock_ticks * 100))

-- `pid` is what getpid returns. The handler returns 0 and leaves its arguments. An overflow is
-- undefined.
unfoldable pub our_sleep : ℤ → Sysargs → State → Routine ℤ
unfolding get_process add_to_priority_queue bind
our_sleep pid args s =
    let end_time = times 1000 args.arg1 +ℤ pos (s.global_clock_ticks * 100) in
    if in_time args.arg1 s
    then bind (get_process pid end_time s) (λ p t. elim (add_to_priority_queue p t) [
      | none ↦ out_of_fuel t
      | some u ↦ yields (mbox_send (u.shadow_process_table p).mbox_id) u (λ _ v. done (pos 0) v)
    ])
    else fault s

-- Who is through sleeping is woken; the time is read once.
unfoldable pub wake_until : ℕ → ℤ → State → Routine (Unit {0})
wake_until zero cur_time s = out_of_fuel s
wake_until (suc fuel) cur_time s = elim s.priority_queue_head [
  | none ↦ done tt s
  | some p ↦
      if leb_ℤ (s.shadow_process_table p).end_sleep cur_time
      then yields (mbox_recv (s.shadow_process_table p).mbox_id)
          (record s { priority_queue_head = (s.shadow_process_table p).next })
          (λ _ t. wake_until fuel cur_time t)
      else done tt s
]

unfoldable pub remove_from_priority_queue : ℕ → State → Routine (Unit {0})
unfolding wake_until
remove_from_priority_queue fuel s = wake_until fuel (pos (s.global_clock_ticks * 100)) s

-- One round of `while (1)`.
unfoldable pub daemon_round : ℕ → State → Routine (Unit {0})
unfolding remove_from_priority_queue
daemon_round fuel s = yields (wait_device clock_dev 0) s (λ _ t.
    remove_from_priority_queue fuel (record t { global_clock_ticks = t.global_clock_ticks + 1 }))
