-- ===== src/User/Examples.antt =====
-- The theorems on the user-mode stubs at concrete states.
use process_control.Base.{ℕ, ◌==◌, ◌≡◌, refl, Option, none, [], ◌∷◌, arith}
use process_control.Base.Int.{ℤ, pos, minus_one}
use process_control.Base.Run.{done, yields, bind, settle, calls}
use process_control.Base.Chain.{Chain}
use process_control.Base.Sysargs.{Sysargs}
use process_control.Base.Syscalls.{TellsApart, code}
use process_control.Phase3
use process_control.Phase3.State.{Answer, fork1, join, mbox_create}
use process_control.Phase3.Spawn.{pointer, create_shadow_process}
use process_control.Phase3.Semaphore.Creation.{IsFilled, created}
use process_control.Phase3.Examples.{two_semaphores, two-IsFilled}
use process_control.Phase4
use process_control.Phase4.State.{count_tracks, mbox_recv, mbox_send, request}
use process_control.Phase4.Sleep.Order.{sleep_links, end_of}
use process_control.Phase4.Examples.{two_asleep, usloss}
use process_control.Phase4.Sleep.Sleeping.{timed}
use process_control.User.State.{Machine, int_of}
use process_control.User.Link.{through}
use process_control.User.Kernel.{no_args, wait, spawn}
use process_control.User.Devices.{sleep, term_read}
use process_control.User.Terminals.{term_read-read_answer}
use process_control.User.Semaphores.{create_v_p, create_v_p-value, kernel}
use process_control.User.Processes.{run, wait-join, spawn-priority}
use process_control.User.Drivers.{run_on, sleep-unset}

-- The status of user mode with interrupts on is 2.
abbrev machine : Machine
machine = record { current_int = 2; in_kernel = λ psr. psr == 3 }

code-TellsApart : TellsApart code
code-TellsApart a b = refl

abbrev new_mailbox : Answer
new_mailbox = record { result = pos 8; status = pos 0 }

-- fork1 finds no slot, and join answers 6 and 7.
abbrev answering : Phase3.State.Call → Phase3.State.State → Answer × Phase3.State.State
answering (fork1 _ _ _ _) t = (record { result = minus_one; status = pos 0 }, t)
answering _ t = (record { result = pos 6; status = pos 7 }, t)

abbrev no_handlers : {H : Type 0} → ℕ → Option H
no_handlers _ = none

create_v_p-value_example :
    let served =
      through
        (kernel machine code code-TellsApart 5 (pos 0) no_handlers)
        no_args
        (create_v_p machine (pos 3) 2)
        (two_semaphores (pos 0)) in
    (t : Phase3.State.State) × (settle (λ e u. (new_mailbox, u)) served
      ≡ done (pos 2, pos 0, pos 0, pos 0) t)
    × (calls (λ e u. (new_mailbox, u)) served ≡ mbox_create 0 0 ∷ [])
    × ((t.semaphore_table 2).value ≡ pos 3)
    × IsFilled (created (pos 8) (pos 3) (two_semaphores (pos 0)))
create_v_p-value_example =
    create_v_p-value machine code code-TellsApart 5 (pos 0) no_handlers 3 new_mailbox
      (two_semaphores (pos 0)) (omega arith) two-IsFilled (omega arith) refl refl

wait-join_example :
    settle answering (
      run machine code code-TellsApart 5
        (pos 0)
        no_handlers
        (bind (wait machine 2) (λ x p. done x p))
        (two_semaphores (pos 0)))
    ≡ settle answering (
        run machine code code-TellsApart 5
          (pos 0)
          no_handlers
          (done (pos 6, pos 7, pos 0) 2)
          (two_semaphores (pos 0)))
wait-join_example =
    wait-join machine code code-TellsApart 5 (pos 0) no_handlers (λ x p. done x p) answering
      (two_semaphores (pos 0)) (omega arith) (omega arith)

spawn-priority_example :
    settle answering (
      run machine code code-TellsApart 5
        (pos 0)
        no_handlers
        (bind (spawn machine (pos 1) (pos 2) (pos 3) (pos 4) (pos 5) 2) (λ x p. done x p))
        (two_semaphores (pos 0)))
    ≡ settle answering (
        run machine code code-TellsApart 5
          (pos 0)
          no_handlers
          (done (minus_one, pos 5) 2)
          (create_shadow_process (pointer (pos 2)) (pos 3) (two_semaphores (pos 0))))
spawn-priority_example =
    spawn-priority machine code code-TellsApart 5 (pos 0) no_handlers (λ x p. done x p) (pos 1)
      (pos 2) (pos 3) (pos 4) (pos 5) answering (two_semaphores (pos 0)) (omega arith) (omega arith)

-- The variable of the stub holds 77 everywhere.
abbrev garbage : Sysargs
garbage = record { arg1 = pos 77; arg2 = pos 77; arg3 = pos 77; arg4 = pos 77; arg5 = pos 77 }

sleep-unset_example :
    (t : Phase4.State.State) × (run_on machine code code-TellsApart usloss 3
        (λ _. [])
        no_handlers
        garbage
        2
        refl
        (bind (sleep machine garbage (pos 1) 2) (λ x p. done x p))
        (two_asleep 0)
      ≡ yields (mbox_send (pos 13)) t (λ _ v.
        run_on machine code code-TellsApart usloss 3
          (λ _. [])
          no_handlers
          garbage
          2
          refl
          (done (int_of (pos 77)) 2)
          v))
    × Chain (sleep_links t) t.priority_queue_head (1 ∷ 2 ∷ 3 ∷ [])
    × (end_of (timed 3 (record garbage { arg1 = pos 1 }) (two_asleep 0)) 3 ≡ pos 1000)
sleep-unset_example =
    sleep-unset machine code code-TellsApart usloss 3 (λ _. []) no_handlers garbage 2 refl
      (λ x p. done x p) (pos 1) (1 ∷ 2 ∷ []) (two_asleep 0) (omega arith) (omega arith)
      (omega arith) refl (refl, (refl, refl)) (refl, (refl, tt)) refl (omega arith) (λ e. refl)

-- A read of 20 characters from terminal 2, for which 12 have come.
abbrev term_reader : ℤ → Phase4.State.Routine (ℤ × ℤ)
term_reader unit =
    run_on machine code code-TellsApart usloss 3 (λ _. []) no_handlers garbage 2 refl
      (bind (term_read machine garbage (pos 4096) (pos 20) unit 2) (λ x p. done x p)) (two_asleep 0)

term_read-read_answer_example :
    settle (λ e t. (pos 12, t)) (term_reader (pos 2))
    ≡ settle
        (λ e t. (pos 12, t))
        (run_on machine code code-TellsApart usloss 3
          (λ _. [])
          no_handlers
          garbage
          2
          refl
          (done (pos 12, pos 0) 2)
          (record (two_asleep 0) { read_buffer_size = pos 20 }))
term_read-read_answer_example =
    term_read-read_answer machine code code-TellsApart usloss 3 (λ _. []) no_handlers garbage 2 refl
      (λ x p. done x p) (λ e. pos 12) (pos 4096) (pos 20) (pos 2) (two_asleep 0) (omega arith)
      (λ e. omega arith)
