-- ===== src/Phase2/Scenarios.antt =====
-- The theorems about the queues, the release, the leaks and the handlers of phase2/phase2.c at
-- concrete mailboxes.
use process_control.Base.{ℕ, ◌≡◌, inr, refl, ◌≢◌, true, false, none, some, [], ◌∷◌, arith}
use process_control.Base.Int.{pos, minus_one}
use process_control.Base.Run.{done, yields, settle, calls}
use process_control.Base.Chain.{Chain, walk_last}
use process_control.Phase2.State.{State, unblock_proc}
use process_control.Phase2.Slots.{find_mb_slot, find_open_mb_table_slot, mbox_create}
use process_control.Phase2.Slots.Search.{in_use}
use process_control.Phase2.Queue.{
  add_to_consumer_queue, consumer_links, set_consumer_head, set_next_consumer, set_producer_head,
}
use process_control.Phase2.Queue.Waiters.{HasConsumers, HasProducers}
use process_control.Phase2.Queue.Stale.{add_to_consumer_queue-cycle}
use process_control.Phase2.Mailbox.Send.{mbox_send, payload}
use process_control.Phase2.Mailbox.Recv.{answer, mbox_recv, recv_meet, take_message}
use process_control.Phase2.Mailbox.Cond.{mbox_cond_recv}
use process_control.Phase2.Mailbox.Release.{mbox_release}
use process_control.Phase2.Mailbox.Release.Wakes.{closed, mbox_release-wakes}
use process_control.Phase2.Mailbox.Contents.{Holds}
use process_control.Phase2.Mailbox.Queueing.{mbox_cond_recv-head}
use process_control.Phase2.Mailbox.Leaks.{mbox_recv-stays_queued, mbox_send-loses_slot}
use process_control.Phase2.Device.{Devices}
use process_control.Phase2.Examples.{hello, loaded, loaded-Holds, plenty, quiet}

-- Process 5 waits for a message, and process 5 for room.
abbrev one_consumer : State
one_consumer = set_consumer_head 7 5 loaded

abbrev one_producer : State
one_producer = set_producer_head 7 5 loaded

one_consumer-HasConsumers : HasConsumers one_consumer 7 (5 ∷ [])
unfolding loaded
one_consumer-HasConsumers = record {
  chain = (refl, refl);
  distinct = (refl, tt);
  short = omega arith;
}

one_producer-HasProducers : HasProducers one_producer 7 (5 ∷ [])
unfolding loaded
one_producer-HasProducers = record {
  chain = (refl, refl);
  distinct = (refl, tt);
  short = omega arith;
}

-- Processes 54 and 5 wait for a message, process 6 of the table for room.
abbrev crowded : State
crowded = set_producer_head 7 6 (set_next_consumer 4 5 (set_consumer_head 7 4 loaded))

crowded-HasConsumers : HasConsumers crowded 7 (4 ∷ 5 ∷ [])
unfolding loaded
crowded-HasConsumers = record {
  chain = (refl, (refl, refl));
  distinct = (refl, (refl, tt));
  short = omega arith;
}

mbox_release-wakes_example :
    (calls quiet (mbox_release (pos 7) crowded)
      ≡ unblock_proc 54 ∷ unblock_proc 5 ∷ unblock_proc 0 ∷ [])
    × ((t : State) × (settle quiet (mbox_release (pos 7) crowded) ≡ done (pos 0) t)
        × (t.mb_table 7 ≡ closed (crowded.mb_table 7)))
unfolding loaded
mbox_release-wakes_example =
    mbox_release-wakes quiet 7 crowded {ms = 0 ∷ []} {ys = 6 ∷ []} (λ e s. (refl, refl))
      (omega arith) (record { chain = (refl, refl); distinct = (refl, tt); short = omega arith })
      crowded-HasConsumers
      (record { chain = (refl, refl); distinct = (refl, tt); short = omega arith })

add_to_consumer_queue-cycle_example :
    ((t u : State) × (recv_meet 7 4 crowded ≡ done (answer (pos 0) []) t)
      × (add_to_consumer_queue 54 7 t ≡ some u)
      × ((u.mb_table 7).consumer_queue_head ≡ some 5)
      × ((fuel : ℕ) → walk_last fuel (consumer_links u) 5 ≡ none))
    × ((t u : State) × (take_message 7 0 crowded ≡ some t)
        × (add_to_consumer_queue 54 7 t ≡ some u)
        × ((u.mb_table 7).consumer_queue_head ≡ some 5)
        × ((fuel : ℕ) → walk_last fuel (consumer_links u) 5 ≡ none))
unfolding loaded
add_to_consumer_queue-cycle_example =
    add_to_consumer_queue-cycle crowded 7 54 5 [] crowded-HasConsumers 0 refl

mbox_cond_recv-head_example :
    (u : State) × (mbox_cond_recv plenty 54 (pos 7) 10 (pos 10) loaded
      ≡ done (answer (pos 2) (104 ∷ 105 ∷ [])) u)
    × Holds u 7 [] []
    × (in_use u 0 ≡ false)
    × ((u.mb_table 7).mail_slots_available ≡ pos 2)
unfolding loaded
mbox_cond_recv-head_example =
    mbox_cond_recv-head plenty loaded 7 54 10 (pos 10) loaded-Holds (record {
      in_range = omega arith;
      consumers = refl;
      producers = refl;
      memory = refl;
      fits = omega arith;
    })

mbox_recv-stays_queued_example :
    (t : State) × (mbox_recv plenty 54 (pos 7) 10 (pos 1) one_consumer
      ≡ done (answer minus_one []) t)
    × Chain (consumer_links t) (t.mb_table 7).consumer_queue_head (5 ∷ 4 ∷ [])
unfolding loaded
mbox_recv-stays_queued_example =
    mbox_recv-stays_queued plenty one_consumer 7 54 10 (pos 1) 0 (omega arith) refl refl refl refl
      refl one_consumer-HasConsumers (record { known = refl; absent = refl; unlinked = refl })

-- Mailbox 8 without slots, at which process 5 waits.
abbrev rendezvous : State
unfolding loaded mbox_create find_open_mb_table_slot find_mb_slot
rendezvous = set_consumer_head 8 5 (mbox_create (pos 0) (pos 10) loaded).1

mbox_send-loses_slot_example :
    (m : ℕ) × (u : State) × (mbox_send plenty 54 (pos 8) hello (pos 2) rendezvous
      ≡ yields (unblock_proc (u.shadow_process_table 5).pid) u (λ _ v. done (pos 0) v))
    × (in_use rendezvous m ≡ false)
    × (in_use u m ≡ true)
    × ((i : ℕ) → i ≢ m → u.message_slots i ≡ rendezvous.message_slots i)
    × ((a : ℕ) → (u.mb_table a).mail_slot_queue_head ≡ (rendezvous.mb_table a).mail_slot_queue_head)
unfolding rendezvous payload
mbox_send-loses_slot_example = mbox_send-loses_slot plenty rendezvous 8 54 5 2 hello (record {
  in_range = omega arith;
  live = refl;
  ready = refl;
  no_slots = refl;
  not_null = inr (omega arith);
  small = refl;
  readable = (104 ∷ 105 ∷ [], refl);
  memory = refl;
  consumer = refl;
  alone = refl;
  known = refl;
  free = (1, omega arith, refl);
})

-- Device types that differ.
abbrev devices : Devices
devices = record { clock_dev = 0; disk_dev = 2; term_dev = 3 }
