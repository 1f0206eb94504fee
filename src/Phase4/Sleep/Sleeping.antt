-- ===== src/Phase4/Sleep/Sleeping.antt =====
-- ourSleep of phase4a/phase4.c as a whole, for a process that slept before.
use process_control.Base.{
  ℕ, ◌+◌, ◌*◌, ◌%◌, ◌<◌, if◌then◌else◌, ◌≡◌, ◌≢◌, refl, ap, sym, ◌∙◌, subst, true, false, Option,
  none, some, List, [], ◌∷◌, length, has, arith, update_self, update_ne, update_field,
}
use process_control.Base.Int.{ℤ, pos, negsuc, ◌+ℤ◌, times, eqb_ℤ}
use process_control.Base.Run.{done, yields, fault, out_of_fuel, bind}
use process_control.Base.Chain.{Chain, Distinct}
use process_control.Base.Sysargs.{Sysargs}
use process_control.Phase4.State.{State, Routine, max_proc, mbox_send}
use process_control.Phase4.Sleep.{
  in_time, leb_ℤ, set_end_sleep, create_shadow_process, get_process, add_to_priority_queue,
  our_sleep,
}
use process_control.Phase4.Sleep.Insertion.{IsSorted, insert}
use process_control.Phase4.Sleep.Order.{sleep_links, end_of, add_to_priority_queue-insert}

-- When a sleep of `arg1` seconds that begins now is over.
abbrev pub wake_time : Sysargs → State → ℤ
wake_time args s = times 1000 args.arg1 +ℤ pos (s.global_clock_ticks * 100)

-- The state with that time in the entry of the process.
abbrev pub timed : ℕ → Sysargs → State → State
timed p args s = set_end_sleep p (wake_time args s) s

IsSorted-fresh :
    (f g : ℕ → ℤ) (p : ℕ) (xs : List ℕ)
    → ((i : ℕ) → p ≢ i → g i ≡ f i)
    → has p xs ≡ false
    → IsSorted f xs
    → IsSorted g xs
IsSorted-fresh f g p [] same fresh sorted = tt
IsSorted-fresh f g p (x ∷ []) same fresh sorted = tt
IsSorted-fresh f g p (x ∷ y ∷ xs) same fresh sorted = (
  ap (λ z. leb_ℤ z (g y)) (same x (ground (arith, fresh)))
      ∙ ap (leb_ℤ (f x)) (same y (ground (arith, fresh)))
      ∙ sorted.0,
  IsSorted-fresh f g p (y ∷ xs) same (ground (arith, fresh)) sorted.1,
)

eqb-same : (z : ℤ) → eqb_ℤ z z ≡ true
eqb-same (pos n) = ground arith
eqb-same (negsuc n) = ground arith

get_process-known :
    (pid : ℕ) (seconds : ℤ) (s : State)
    → (s.shadow_process_table (pid % max_proc)).pid ≡ pos pid
    → get_process (pos pid) seconds s
      ≡ done (pid % max_proc) (set_end_sleep (pid % max_proc) seconds s)
unfolding get_process
get_process-known pid seconds s own =
    let p = pid % max_proc in
    ap
      (λ b.
        if b
        then done p (set_end_sleep p seconds s)
        else bind (create_shadow_process p seconds (pos pid) s)
            (λ _ t. done p (set_end_sleep p seconds t)))
      (ap (eqb_ℤ (pos pid)) own ∙ eqb-same (pos pid))

-- The mailbox of the process that is put into the queue stays its own.
add_to_priority_queue-mbox_id :
    (p : ℕ) (s t : State)
    → add_to_priority_queue p s ≡ some t
    → (t.shadow_process_table p).mbox_id ≡ (s.shadow_process_table p).mbox_id
unfolding add_to_priority_queue
add_to_priority_queue-mbox_id p s t e = ground arith

-- A process that has an entry of its own, and is not in the queue, which is a chain of distinct
-- processes no longer than the table, is put into the queue by the time at which its sleep is over,
-- which its entry then holds, and blocks in a send to its mailbox; woken, it gets 0. The times fit an
-- `int`. A queue in the
-- order of the times stays in this order. In an empty queue its own link has to be NULL.
pub our_sleep-insert :
    (pid : ℕ) (args : Sysargs) (xs : List ℕ) (s : State)
    → in_time args.arg1 s ≡ true
    → (s.shadow_process_table (pid % max_proc)).pid ≡ pos pid
    → Chain (sleep_links s) s.priority_queue_head xs
    → Distinct xs
    → has (pid % max_proc) xs ≡ false
    → length xs < max_proc + 1
    → (xs ≡ [] → sleep_links s (pid % max_proc) ≡ none)
    → let p = pid % max_proc in
      let times_behind = end_of (timed p args s) in
      (t : State) × (our_sleep (pos pid) args s
        ≡ yields (mbox_send (s.shadow_process_table p).mbox_id) t (λ _ u. done (pos 0) u))
      × Chain (sleep_links t) t.priority_queue_head (insert times_behind p xs)
      × (times_behind p ≡ wake_time args s)
      × (IsSorted (end_of s) xs → IsSorted (end_of t) (insert times_behind p xs))
unfolding our_sleep bind
our_sleep-insert pid args xs s fits own chain d fresh l clear =
    let p = pid % max_proc in
    let u = timed p args s in
    let links : sleep_links u ≡ sleep_links s = λ i k.
      update_field s.shadow_process_table (λ x. x.next) p
        (record (s.shadow_process_table p) { end_sleep = wake_time args s }) refl k i in
    let (t, added, chained, sorted) =
      add_to_priority_queue-insert p xs u
        (subst (λ f. Chain f s.priority_queue_head xs) (sym links) chain) d fresh l
        (λ e. (λ i. links i p) ∙ clear e) in
    (
      t,
      ap (λ b. if b then bind (get_process (pos pid) (wake_time args s) s) sleeps else fault s) fits
          ∙ ap (λ r. bind r sleeps) (get_process-known pid (wake_time args s) s own)
          ∙ ap (queued p u) added
          ∙ ap (λ z. yields (mbox_send z) t (λ _ v. done (pos 0) v))
              (add_to_priority_queue-mbox_id p u t added
                ∙ ap (λ x. x.mbox_id) (update_self s.shadow_process_table p _)),
      chained,
      ap (λ x. x.end_sleep) (update_self s.shadow_process_table p _),
      λ before. sorted (
          IsSorted-fresh (end_of s) (end_of u) p xs
            (λ i ne. ap (λ x. x.end_sleep) (update_ne s.shadow_process_table _ ne)) fresh before),
    )
  where
    queued : ℕ → State → Option State → Routine ℤ
    queued p t none = out_of_fuel t
    queued p t (some u) =
        yields (mbox_send (u.shadow_process_table p).mbox_id) u (λ _ v. done (pos 0) v)

    sleeps : ℕ → State → Routine ℤ
    sleeps p t = queued p t (add_to_priority_queue p t)
