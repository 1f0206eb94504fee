-- ===== src/Phase4/Disk.antt =====
-- The disks: diskDaemon, Seek, lockDisk, unlockDisk, ourDiskRead, ourDiskWrite and ourDiskSize of
-- phase4a/phase4.c. A handler gives back the arguments; what it returns itself is not used.
pub mod Places
pub mod Errors
use process_control.Base.{
  ℕ, zero, suc, ◌+◌, ◌==◌, ltb, if◌then◌else◌, Bool, true, false, ◌&&◌, not, Option, none, some, [],
}
use process_control.Base.Int.{ℤ, pos, negsuc, minus_one, ◌+ℤ◌, eqb_ℤ}
use process_control.Base.Run.{done, yields, fault, bind}
use process_control.Base.Sysargs.{Sysargs}
use process_control.Phase4.State.{
  Disk, Operation, State, Routine, Usloss, disk_dev, read_sector, write_sector, seek_track,
  count_tracks, wait_device, device_input, request, mbox_send, mbox_recv, mbox_cond_send, put_disk,
}

-- The daemon notes the status and wakes who waits for the disk.
abbrev pub report : ℕ → Disk → State → Routine (Unit {0})
report unit d s =
    yields (mbox_cond_send (s.disk_mbox unit) []) (put_disk unit d s) (λ _ t. done tt t)

-- One round of `while (1)`.
unfoldable pub disk_round : Usloss → ℕ → State → Routine (Unit {0})
disk_round u unit s = yields (wait_device disk_dev unit) s (λ status t.
    if eqb_ℤ status u.dev_ready
    then yields (device_input disk_dev unit) t
        (λ now v. report unit (record { status = now; is_complete = true }) v)
    else if eqb_ℤ status u.dev_error
    then report unit (record (t.disks unit) { status = u.dev_error }) t
    else done tt t)

-- On the track that the table names nothing is done; the table is not written.
unfoldable pub seek : Usloss → ℕ → ℤ → State → Routine ℤ
seek u unit track s =
    if eqb_ℤ (s.disk_track unit) track
    then done u.left_over s
    else yields (request (pos unit) seek_track track (pos 0)) s (λ _ t.
      yields (mbox_recv (t.disk_mbox unit)) t (λ _ v.
        if eqb_ℤ (v.disks unit).status u.dev_error then done u.dev_error v else done (pos 111) v))

abbrev pub lock_disk : ℕ → State → Routine (Unit {0})
lock_disk unit s = yields (mbox_send (s.disk_lock unit)) s (λ _ t. done tt t)

abbrev pub unlock_disk : ℕ → State → Routine (Unit {0})
unlock_disk unit s = yields (mbox_recv (s.disk_lock unit)) s (λ _ t. done tt t)

-- `reg1` of the request lies over `status` and `isComplete`.
abbrev pub fill_request : ℕ → ℕ → State → State
fill_request unit sector s = put_disk unit (record { status = pos sector; is_complete = false }) s

-- Where the next sector is read from or written to.
pub record Place : Type 0 where
  pub sector : ℕ
  pub track : ℤ
  pub buffer : ℤ

abbrev pub next_place : Place → Place
next_place p = record {
  sector = if p.sector == 15 then 0 else p.sector + 1;
  track = if p.sector == 15 then p.track +ℤ pos 1 else p.track;
  buffer = p.buffer +ℤ pos 512;
}

-- Whether the source asserts that the daemon noted the end of the operation.
abbrev pub is_asserted : Operation → Bool
is_asserted read_sector = true
is_asserted _ = false

-- What the loop ends with: the error of a seek, or the last status.
pub data Transfer : Type 0 where
  seek_failed : Transfer
  through : ℤ → Transfer

-- Behind the seek: the request, the wait for the daemon, and the status.
unfoldable pub transfer_sector : Usloss → Operation → ℕ → Place → State → Routine ℤ
transfer_sector u op unit p s =
    let t = fill_request unit p.sector s in
    yields (request (pos unit) op (pos p.sector) p.buffer) t (λ _ v.
      yields (mbox_recv (v.disk_mbox unit)) v (λ _ w.
        if is_asserted op && not (w.disks unit).is_complete
        then fault w
        else done (w.disks unit).status
            (put_disk unit (record (w.disks unit) { is_complete = false }) w)))

-- `for (int i = 0; i < numOfSectors; i++)`, with `status` so far.
unfoldable pub transfer : ℕ → Usloss → Operation → ℕ → ℤ → Place → State → Routine Transfer
unfolding seek transfer_sector bind
transfer zero u op unit status p s = done (through status) s
transfer (suc sectors) u op unit status p s = bind (seek u unit p.track s) (λ found t.
    if eqb_ℤ found u.dev_error
    then done seek_failed t
    else bind (transfer_sector u op unit p t)
        (λ now v. transfer sectors u op unit now (next_place p) v))

abbrev pub sector_count : ℤ → ℕ
sector_count (pos n) = n
sector_count (negsuc n) = 0

-- The lock is given back only behind a loop that came to its end.
unfoldable pub finish : Usloss → ℕ → Sysargs → Transfer → State → Routine Sysargs
unfolding bind
finish u unit args seek_failed s = done (record args { arg1 = u.dev_error; arg4 = pos 0 }) s
finish u unit args (through status) s = bind (unlock_disk unit s) (λ _ t.
    done (record args { arg1 = if eqb_ℤ status u.dev_ready then pos 0 else status; arg4 = pos 0 })
      t)

-- Behind the checks.
unfoldable pub disk_transfer : Usloss → Operation → ℕ → ℕ → Sysargs → State → Routine Sysargs
unfolding transfer finish bind
disk_transfer u op unit first args s = bind (lock_disk unit s) (λ _ t.
    bind
      (transfer (sector_count args.arg2) u op unit u.unset
        (record { sector = first; track = args.arg3; buffer = args.arg1 }) t)
      (finish u unit args))

abbrev pub disk_unit : ℤ → Option ℕ
disk_unit (pos n) = if ltb n 2 then some n else none
disk_unit (negsuc n) = none

abbrev pub first_sector : ℤ → Option ℕ
first_sector (pos n) = if ltb n 16 then some n else none
first_sector (negsuc n) = none

unfoldable pub our_disk_read : Usloss → Sysargs → State → Routine Sysargs
unfolding disk_transfer
our_disk_read u args s = elim (disk_unit args.arg5) [
  | none ↦ done (record args { arg4 = minus_one }) s
  | some unit ↦ elim (first_sector args.arg4) [
    | none ↦ done (record args { arg4 = minus_one }) s
    | some first ↦ disk_transfer u read_sector unit first args s
  ]
]

unfoldable pub our_disk_write : Usloss → Sysargs → State → Routine Sysargs
unfolding disk_transfer
our_disk_write u args s =
    let refused = record args { arg4 = minus_one; arg1 = u.dev_error } in
    elim (disk_unit args.arg5) [
      | none ↦ done refused s
      | some unit ↦ elim (first_sector args.arg4) [
        | none ↦ done refused s
        | some first ↦ disk_transfer u write_sector unit first args s
      ]
    ]

-- The disk stores the number of its tracks, which is the answer of the request.
unfoldable pub our_disk_size : Sysargs → State → Routine Sysargs
our_disk_size args s = yields (request args.arg1 count_tracks (pos 0) (pos 0)) s (λ tracks t.
    elim (disk_unit args.arg1) [
      | none ↦ fault t
      | some unit ↦ yields (mbox_recv (t.disk_mbox unit)) t (λ _ v.
          done (record args { arg1 = pos 512; arg2 = pos 16; arg3 = tracks; arg4 = pos 0 }) v)
    ])
