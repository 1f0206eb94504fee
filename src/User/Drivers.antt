-- ===== src/User/Drivers.antt =====
-- Sleep, the disk calls and the terminal calls from user mode down to the drivers.
use process_control.Base.{
  ℕ, ◌+◌, ◌*◌, ◌<◌, ◌%◌, length, has, lt→ltb, ◌≡◌, refl, ap, ◌∙◌, true, false, ◌&&◌, if◌then◌else◌,
  Option, none, some, List, [], ◌∷◌, arith,
}
use process_control.Base.Int.{ℤ, pos, ◌+ℤ◌, times, is_int}
use process_control.Base.Run.{done, yields, fault, bind, settle, calls}
use process_control.Base.Chain.{Chain, Distinct}
use process_control.Base.Sysargs.{Sysargs}
use process_control.Base.Syscalls.{Number, TellsApart, sys_sleep, sys_disksize}
use process_control.Phase4.State.{
  State, Call, Routine, Usloss, max_proc, count_tracks, request, mbox_recv, mbox_send,
}
use process_control.Phase4.Sleep.{in_time}
use process_control.Phase4.Sleep.Insertion.{insert}
use process_control.Phase4.Sleep.Order.{sleep_links, end_of}
use process_control.Phase4.Sleep.Sleeping.{timed, wake_time, our_sleep-insert}
use process_control.Phase4.Disk.{our_disk_size}
use process_control.Phase4.Table.{
  Handler, handler_of, sleep_handler, phase4_init, phase4_init-handler_of,
}
use process_control.User
use process_control.User.State.{Machine, int_of}
use process_control.User.Casts.{IsInt, int_of-IsInt, is_int-IsInt}
use process_control.User.Devices.{sleep, disk_size}
use process_control.User.Link.{serve, through, through-device-trap}

module _ (m : Machine) (number : Number → ℕ) (apart : TellsApart number) (u : Usloss) (pid : ℕ)
    (text : ℤ → List ℕ) (vec : ℕ → Option Handler) (unset : Sysargs) (psr : ℕ)
    (user : m.in_kernel psr ≡ false) where
  abbrev pub kernel : Number → Sysargs → State → Routine Sysargs
  kernel = serve number (phase4_init number u (pos pid) text vec)

  abbrev pub run_on : {A : Type 0} → User.State.Routine A → State → Routine A
  run_on = through kernel unset

  pub kernel-handler_of :
      (n : Number) (handler : Handler) (args : Sysargs) (s : State)
      → handler_of u (pos pid) text n (vec (number n)) ≡ some handler
      → kernel n args s ≡ handler args s
  kernel-handler_of n handler args s e =
      ap (λ o. elim o [ none ↦ fault s | some h ↦ h args s ])
        (phase4_init-handler_of number u (pos pid) text vec apart n ∙ e)

  -- A process that has an entry of its own and is not among those that sleep, a chain of distinct
  -- processes no longer than the table, calls Sleep: it is put into the queue by the time its sleep is
  -- over, 1000 times the seconds behind the time of now, and blocks in a send to its own mailbox.
  -- Woken, it gets what the stub's own variable held in `arg4` before the call, as an `int`: neither
  -- the stub nor the handler sets that argument. The thousands of the seconds, the time of now and
  -- their sum fit an `int`. In an empty queue the process's own link has to be NULL.
  pub sleep-unset :
      {A : Type 0} (f : ℤ → ℕ → User.State.Routine A) (seconds : ℤ) (xs : List ℕ) (s : State)
      → IsInt (times 1000 seconds)
      → IsInt (pos (s.global_clock_ticks * 100))
      → IsInt (times 1000 seconds +ℤ pos (s.global_clock_ticks * 100))
      → (s.shadow_process_table (pid % max_proc)).pid ≡ pos pid
      → Chain (sleep_links s) s.priority_queue_head xs
      → Distinct xs
      → has (pid % max_proc) xs ≡ false
      → length xs < max_proc + 1
      → (xs ≡ [] → sleep_links s (pid % max_proc) ≡ none)
      → let p = pid % max_proc in
        let until = end_of (timed p (record unset { arg1 = seconds }) s) in
        (t : State) × (run_on (bind (sleep m unset seconds psr) f) s
          ≡ yields
              (mbox_send (s.shadow_process_table p).mbox_id)
              t
              (λ _ v. run_on (f (int_of unset.arg4) psr) v))
        × Chain (sleep_links t) t.priority_queue_head (insert until p xs)
        × (until p ≡ times 1000 seconds +ℤ pos (s.global_clock_ticks * 100))
  unfolding sleep sleep_handler bind
  sleep-unset f seconds xs s thousands now sum own chain d fresh l clear =
      let args = record unset { arg1 = seconds } in
      let fits : in_time seconds s ≡ true =
        ap (λ b. b && is_int (pos (s.global_clock_ticks * 100)) && is_int (wake_time args s))
          (is_int-IsInt (times 1000 seconds) thousands)
        ∙ ap (λ b. b && is_int (wake_time args s))
            (is_int-IsInt (pos (s.global_clock_ticks * 100)) now)
        ∙ is_int-IsInt (wake_time args s) sum in
      let (t, sleeps, queued, time, sorted) =
        our_sleep-insert pid args xs s fits own chain d fresh l clear in
      (
        t,
        through-device-trap kernel unset m sys_sleep args (λ res. int_of res.arg4) f psr s user
            ∙ ap (λ r. bind r (λ res v. run_on (f (int_of res.arg4) psr) v))
                (kernel-handler_of sys_sleep (sleep_handler (pos pid)) args s refl)
            ∙ ap
                (λ r.
                  bind (bind r (λ _ v. done args v)) (λ res v. run_on (f (int_of res.arg4) psr) v))
                sleeps,
        queued,
        time,
      )

  -- DiskSize of one of the two disks asks the disk for the number of its tracks, waits for its end,
  -- and gives the caller 512 bytes in a sector, 16 sectors in a track, that number, which is an
  -- `int`, and the result 0. The environment leaves the state.
  pub disk_size-tracks :
      {A : Type 0} (f : ℤ × ℤ × ℤ × ℤ → ℕ → User.State.Routine A) (unit : ℕ) (answer : Call → ℤ)
      (s : State)
      → unit < 2
      → IsInt (answer (request (pos unit) count_tracks (pos 0) (pos 0)))
      → let tracks = answer (request (pos unit) count_tracks (pos 0) (pos 0)) in
        let behind = run_on (f (pos 512, pos 16, tracks, pos 0) psr) s in
        (settle (λ e t. (answer e, t)) (run_on (bind (disk_size m unset (pos unit) psr) f) s)
          ≡ settle (λ e t. (answer e, t)) behind)
        × (calls (λ e t. (answer e, t)) (run_on (bind (disk_size m unset (pos unit) psr) f) s)
            ≡ request (pos unit) count_tracks (pos 0) (pos 0)
              ∷ mbox_recv (s.disk_mbox unit)
              ∷ calls (λ e t. (answer e, t)) behind)
  unfolding disk_size our_disk_size bind settle calls
  disk_size-tracks f unit answer s within small =
      let tracks = answer (request (pos unit) count_tracks (pos 0) (pos 0)) in
      let e =
        through-device-trap kernel unset m sys_disksize (record unset { arg1 = pos unit }) taken f
          psr s user
        ∙ ap (λ r. bind r (λ res t. run_on (f (taken res) psr) t))
            (kernel-handler_of sys_disksize our_disk_size (record unset { arg1 = pos unit }) s
              refl) in
      let known = ap (λ b. if b then some unit else none) (lt→ltb unit 2 within) in
      let kept : (int_of (pos 512), int_of (pos 16), int_of tracks, int_of (pos 0))
          ≡ (pos 512, pos 16, tracks, pos 0) =
        λ k. (
          int_of-IsInt (pos 512) (omega arith) k,
          int_of-IsInt (pos 16) (omega arith) k,
          int_of-IsInt tracks small k,
          int_of-IsInt (pos 0) (omega arith) k,
        ) in
      (
        ap (settle (λ e t. (answer e, t))) e
            ∙ ap
                (λ o.
                  settle (λ e t. (answer e, t))
                    (bind (found s tracks o) (λ res t. run_on (f (taken res) psr) t)))
                known
            ∙ ap (λ z. settle (λ e t. (answer e, t)) (run_on (f z psr) s)) kept,
        ap (calls (λ e t. (answer e, t))) e
            ∙ ap
                (λ o.
                  request (pos unit) count_tracks (pos 0) (pos 0)
                  ∷ calls (λ e t. (answer e, t))
                      (bind (found s tracks o) (λ res t. run_on (f (taken res) psr) t)))
                known
            ∙ ap
                (λ z.
                  request (pos unit) count_tracks (pos 0) (pos 0)
                  ∷ mbox_recv (s.disk_mbox unit)
                  ∷ calls (λ e t. (answer e, t)) (run_on (f z psr) s))
                kept,
      )
    where
      taken : Sysargs → ℤ × ℤ × ℤ × ℤ
      taken res = (int_of res.arg1, int_of res.arg2, int_of res.arg3, int_of res.arg4)

      found : State → ℤ → Option ℕ → Routine Sysargs
      found s tracks none = fault s
      found s tracks (some unit) = yields (mbox_recv (s.disk_mbox unit)) s (λ _ v.
          done (record unset { arg1 = pos 512; arg2 = pos 16; arg3 = tracks; arg4 = pos 0 }) v)
