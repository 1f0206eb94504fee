-- ===== src/Phase1/Create/Refused.antt =====
-- fork1 of phase1b/phase1.c on a process that it refuses.
use process_control.Base.{
  ℕ, ◌-◌, ◌<◌, if◌then◌else◌, ◌≡◌, refl, ap, ◌∙◌, true, false, not, Option, none, some, update_self,
}
use process_control.Base.Int.{ℤ, pos, negsuc, minus_one, ltb_ℤ}
use process_control.Base.Run.{done, fault, out_of_fuel, bind}
use process_control.Phase1.State.{
  Routine, State, fork_in_user_mode, put_process, put_queue, disable_interrupts,
}
use process_control.Phase1.Queue.{Step, ok, bad_index, no_end, add_at, add_to_queue}
use process_control.Phase1.Queue.Order.{add_to_queue-add_at}
use process_control.Phase1.Zap.{complain}
use process_control.Phase1.Create.{
  Request, find_slot, new_process, name_fits, name_of, enter_process, create_process, is_refused,
  check_created, fork1, adopt,
}

-- The new entry in its slot, with the counter moved on and the interrupts off.
abbrev pub entered : Request → ℕ → ℕ → State → State
entered r i counter s =
    put_process i (record (new_process (counter - 1) r) { name = name_of r.name })
      (record (disable_interrupts s) { pid_counter = counter })

add_at-none :
    (k i : ℕ) (t : State) → t.run_queues k ≡ none → add_at k i t ≡ ok (put_queue k (some i) t)
unfolding add_at
add_at-none k i t e = rw (e, add_at) refl

enter_process-queued :
    (r : Request) (i counter k : ℕ) (s : State)
    → name_fits r.name ≡ true
    → r.priority ≡ pos k
    → k < 8
    → s.run_queues k ≡ none
    → enter_process s.psr r i counter (record (disable_interrupts s) { pid_counter = counter })
      ≡ done
          (pos (counter - 1))
          (record (put_queue k (some i) (entered r i counter s)) { psr = s.psr })
unfolding enter_process
enter_process-queued r i counter k s fits prio h empty =
    let t = entered r i counter s in
    let u = record (disable_interrupts s) { pid_counter = counter } in
    ap
      (λ b.
        if not b
        then fault (put_process i (new_process (counter - 1) r) u)
        else behind t (add_to_queue i t))
      fits
    ∙ ap (behind t) (
        add_to_queue-add_at i k t (ap (λ x. x.priority) (update_self s.process_table i _) ∙ prio) h
        ∙ add_at-none k i t empty)
  where
    behind : State → Step → Routine ℤ
    behind t step = elim step [
      | ok u ↦ done (pos (counter - 1)) (record u { psr = s.psr })
      | bad_index ↦ fault t
      | no_end ↦ out_of_fuel t
    ]

-- A process that fork1 refuses behind createProcess, for the priority 0 or for a start function that
-- is NULL, keeps its slot and its place in the run queue of its priority, although the answer is -1.
-- The call is made in kernel mode with a stack that is large enough and a name that fits, a slot is
-- free, the priority is from 0 to 7, and its queue was empty.
pub fork1-refused :
    (min_stack stacksize : ℤ) (r : Request) (i counter k : ℕ) (s : State)
    → (s.psr).kernel_mode ≡ true
    → ltb_ℤ stacksize min_stack ≡ false
    → find_slot s ≡ (some i, counter)
    → name_fits r.name ≡ true
    → r.priority ≡ pos k
    → k < 8
    → s.run_queues k ≡ none
    → is_refused r ≡ true
    → (t : State) × (fork1 min_stack r stacksize s ≡ done minus_one t)
      × ((t.process_table i).is_initialized ≡ true)
      × (t.run_queues k ≡ some i)
unfolding fork1 create_process check_created bind
fork1-refused min_stack stacksize r i counter k s kernel stack slot fits prio h empty refused =
    let t = record (put_queue k (some i) (entered r i counter s)) { psr = s.psr } in
    (
      t,
      ap
            (λ b.
              if not b
              then complain fork_in_user_mode s
              else if ltb_ℤ stacksize min_stack
              then done (negsuc 1) s
              else bind (create_process r s) (check_created r))
            kernel
          ∙ ap (λ b. if b then done (negsuc 1) s else bind (create_process r s) (check_created r))
              stack
          ∙ ap (λ m. bind m (check_created r))
              (ap made slot ∙ enter_process-queued r i counter k s fits prio h empty)
          ∙ ap (λ b. if b then done minus_one t else adopt (counter - 1) t) refused,
      ap (λ x. x.is_initialized) (update_self s.process_table i _),
      update_self s.run_queues k (some i),
    )
  where
    made : Option ℕ × ℕ → Routine ℤ
    made found =
        let u = record (disable_interrupts s) { pid_counter = found.1 } in
        elim found.0 [ none ↦ done minus_one u | some j ↦ enter_process s.psr r j found.1 u ]
