-- ===== src/Phase4/Disk/Errors.antt =====
-- ourDiskRead and ourDiskWrite of phase4a/phase4.c on a disk that reports an error.
use process_control.Base.{
  ℕ, suc, ◌==◌, if◌then◌else◌, ◌≡◌, ap, ◌∙◌, true, false, ◌&&◌, not, List, [], ◌∷◌, ◌++◌, arith,
  update_self,
}
use process_control.Base.Int.{ℤ, pos, pos_part, neg_part, eqb_ℤ}
use process_control.Base.Run.{done, yields, fault, bind, calls, settle}
use process_control.Base.Sysargs.{Sysargs}
use process_control.Phase4.State.{
  Operation, State, Call, Routine, Usloss, seek_track, read_sector, request, mbox_send, mbox_recv,
  put_disk,
}
use process_control.Phase4.Disk.{
  Place, Transfer, next_place, seek_failed, seek, fill_request, transfer_sector, transfer, finish,
  sector_count, disk_transfer,
}

-- What the daemon does at an error of the device: it notes the status and nothing else.
abbrev pub failing : Usloss → ℕ → ℤ → Call → State → ℤ × State
failing u unit answer e t =
    (answer, put_disk unit (record (t.disks unit) { status = u.dev_error }) t)

eqb_ℤ-refl : (a : ℤ) → eqb_ℤ a a ≡ true
eqb_ℤ-refl a = parts (pos_part a) (neg_part a)
  where
    parts : (m n : ℕ) → ((m == m) && (n == n)) ≡ true
    parts m n = ground arith

module _ (u : Usloss) (unit first n : ℕ) (answer : ℤ) (args : Sysargs) (s : State)
    (some_sectors : args.arg2 ≡ pos (suc n)) where
  env : Call → State → ℤ × State
  env = failing u unit answer

  locked : State
  locked = put_disk unit (record (s.disks unit) { status = u.dev_error }) s

  place : Place
  place = record { sector = first; track = args.arg3; buffer = args.arg1 }

  -- The state behind one call.
  env_state : State → State
  env_state t = put_disk unit (record (t.disks unit) { status = u.dev_error }) t

  sector_from : Operation → State → Routine Transfer
  unfolding place
  sector_from op t =
      bind (transfer_sector u op unit place t)
        (λ now v. transfer n u op unit now (next_place place) v)

  go_on : Operation → ℤ → State → Routine Transfer
  unfolding sector_from
  go_on op found t = if eqb_ℤ found u.dev_error then done seek_failed t else sector_from op t

  seeking : Routine ℤ
  unfolding locked
  seeking = yields (request (pos unit) seek_track args.arg3 (pos 0)) locked (λ _ t.
      yields (mbox_recv (t.disk_mbox unit)) t (λ _ v.
        if eqb_ℤ (v.disks unit).status u.dev_error then done u.dev_error v else done (pos 111) v))

  seek_calls : List Call
  seek_calls =
      mbox_send (s.disk_lock unit)
      ∷ request (pos unit) seek_track args.arg3 (pos 0)
      ∷ mbox_recv (s.disk_mbox unit)
      ∷ []

  -- On a disk that reports an error for every operation, a transfer of at least one sector from a
  -- track that is not the one of the table fails at its seek: it answers the error and gives no
  -- call to unlock the disk, which it has locked.
  pub disk_transfer-keeps_lock :
      (op : Operation)
      → eqb_ℤ (s.disk_track unit) args.arg3 ≡ false
      → (calls (failing u unit answer) (disk_transfer u op unit first args s)
          ≡ mbox_send (s.disk_lock unit)
            ∷ request (pos unit) seek_track args.arg3 (pos 0)
            ∷ mbox_recv (s.disk_mbox unit)
            ∷ [])
        × ((t : State) × (settle (failing u unit answer) (disk_transfer u op unit first args s)
              ≡ done (record args { arg1 = u.dev_error; arg4 = pos 0 }) t))
  unfolding env disk_transfer transfer seek finish bind calls settle locked place env_state
      seek_calls seeking go_on sector_from
  disk_transfer-keeps_lock op other =
      let v = env_state (env_state locked) in
      let failed : eqb_ℤ (v.disks unit).status u.dev_error ≡ true =
        ap (λ d. eqb_ℤ d.status u.dev_error) (update_self (env_state locked).disks unit _)
        ∙ eqb_ℤ-refl u.dev_error in
      let last = env_state (env_state locked) in
      let sectors = ap sector_count some_sectors in
      let error = eqb_ℤ-refl u.dev_error in
      (
        ap
              (λ k.
                mbox_send (s.disk_lock unit)
                ∷ calls env (bind (transfer k u op unit u.unset place locked) (finish u unit args)))
              sectors
            ∙ ap
                (λ b.
                  mbox_send (s.disk_lock unit)
                  ∷ calls env (
                      bind (bind (if b then done u.left_over locked else seeking) (go_on op))
                        (finish u unit args)))
                other
            ∙ ap
                (λ b.
                  seek_calls
                  ++ calls env (
                      bind (bind (if b then done u.dev_error v else done (pos 111) v) (go_on op))
                        (finish u unit args)))
                failed
            ∙ ap
                (λ b.
                  seek_calls
                  ++ calls env (
                      bind (if b then done seek_failed v else sector_from op v)
                        (finish u unit args)))
                error,
        (
          v,
          ap
                (λ k.
                  settle env
                    (bind (transfer k u op unit u.unset place locked) (finish u unit args)))
                sectors
              ∙ ap
                  (λ b. settle env (
                    bind (bind (if b then done u.left_over locked else seeking) (go_on op))
                      (finish u unit args)))
                  other
              ∙ ap
                  (λ b. settle env (
                    bind (bind (if b then done u.dev_error v else done (pos 111) v) (go_on op))
                      (finish u unit args)))
                  failed
              ∙ ap
                  (λ b. settle env (
                    bind (if b then done seek_failed v else sector_from op v) (finish u unit args)))
                  error,
        ),
      )

  -- On a disk that reports an error for every operation, a read of at least one sector from the
  -- track of the table comes to an assertion that fails: the error is not given back. What Seek
  -- leaves when it does nothing is not the number of the error.
  pub disk_transfer-asserts :
      eqb_ℤ (s.disk_track unit) args.arg3 ≡ true
      → eqb_ℤ u.left_over u.dev_error ≡ false
      → (t : State) × (settle
            (failing u unit answer)
            (disk_transfer u read_sector unit first args s)
          ≡ fault t)
  unfolding env disk_transfer transfer transfer_sector seek finish bind calls settle locked place
      env_state seek_calls seeking go_on sector_from
  disk_transfer-asserts same luck =
      let w = env_state (env_state (fill_request unit first locked)) in
      let t1 = fill_request unit first locked in
      let not_complete : not (w.disks unit).is_complete ≡ true =
        ap (λ d. not d.is_complete) (update_self (env_state t1).disks unit _)
        ∙ ap (λ d. not d.is_complete) (update_self t1.disks unit _)
        ∙ ap (λ d. not d.is_complete) (update_self locked.disks unit _) in
      (
        w,
        ap
              (λ k.
                settle env
                  (bind (transfer k u read_sector unit u.unset place locked) (finish u unit args)))
              (ap sector_count some_sectors)
            ∙ ap
                (λ b. settle env (
                  bind (bind (if b then done u.left_over locked else seeking) (go_on read_sector))
                    (finish u unit args)))
                same
            ∙ ap
                (λ b. settle env (
                  bind (if b then done seek_failed locked else sector_from read_sector locked)
                    (finish u unit args)))
                luck
            ∙ ap
                (λ b. settle env (
                  bind
                    (bind
                      (if b
                        then fault w
                        else done (w.disks unit).status
                            (put_disk unit (record (w.disks unit) { is_complete = false }) w))
                      (λ now v. transfer n u read_sector unit now (next_place place) v))
                    (finish u unit args)))
                not_complete,
      )
