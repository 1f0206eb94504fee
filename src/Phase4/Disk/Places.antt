-- ===== src/Phase4/Disk/Places.antt =====
-- The sectors that ourDiskRead and ourDiskWrite of phase4a/phase4.c go through.
use process_control.Base.{
  ℕ, zero, suc, ◌+◌, ◌*◌, ◌/◌, ◌%◌, ◌==◌, if◌then◌else◌, ◌≡◌, ◌≢◌, refl, ap, sym, ◌∙◌, Bool, true,
  false, ◌&&◌, not, List, [], ◌∷◌, ◌++◌, arith, inl, inr, update_self, Bool-cases, ==→eq, ==→ne,
}
use process_control.Base.Int.{ℤ, pos, negsuc, ◌+ℤ◌, eqb_ℤ}
use process_control.Base.Run.{done, yields, fault, bind, calls}
use process_control.Phase4.State.{
  Operation, State, Call, Routine, Usloss, seek_track, request, mbox_recv, put_disk,
}
use process_control.Phase4.Disk.{
  Place, Transfer, next_place, is_asserted, seek_failed, seek, fill_request, transfer_sector,
  transfer,
}

-- The `i`-th place from a first sector on: sixteen sectors to a track, 512 bytes to a sector.
abbrev pub place_at : ℕ → ℤ → ℤ → ℕ → Place
place_at first track buffer i = record {
  sector = (first + i) % 16;
  track = track +ℤ pos ((first + i) / 16);
  buffer = buffer +ℤ pos (512 * i);
}

add_pos : (a : ℤ) (m n : ℕ) → a +ℤ pos m +ℤ pos n ≡ a +ℤ pos (m + n)
add_pos (pos k) m n = ground arith
add_pos (negsuc k) m n = ground arith

next_place-place_at :
    (first : ℕ) (track buffer : ℤ) (i : ℕ)
    → next_place (place_at first track buffer i) ≡ place_at first track buffer (i + 1)
next_place-place_at first track buffer i =
    let go_on : first + i + 1 ≡ first + (i + 1) = omega arith in
    let sector = sector_step (first + i) ∙ ap (λ n. n % 16) go_on in
    let track_ = track_step (first + i) ∙ ap (λ n. track +ℤ pos (n / 16)) go_on in
    let ahead : 512 * i + 512 ≡ 512 * (i + 1) = omega arith in
    let buffer_ = add_pos buffer (512 * i) 512 ∙ ap (λ n. buffer +ℤ pos n) ahead in
    λ j. record { sector = sector j; track = track_ j; buffer = buffer_ j }
  where
    sector_step : (n : ℕ) → (if n % 16 == 15 then 0 else n % 16 + 1) ≡ (n + 1) % 16
    sector_step n = ground arith

    whole : (n : ℕ) → n % 16 ≡ 15 → n / 16 + 1 ≡ (n + 1) / 16
    whole n e = omega arith

    part : (n : ℕ) → n % 16 ≢ 15 → n / 16 ≡ (n + 1) / 16
    part n e = omega arith

    track_step :
        (n : ℕ)
        → (if n % 16 == 15 then track +ℤ pos (n / 16) +ℤ pos 1 else track +ℤ pos (n / 16))
          ≡ track +ℤ pos ((n + 1) / 16)
    track_step n = elim (Bool-cases (n % 16 == 15)) [
      | inl e ↦
          ap (λ b. if b then track +ℤ pos (n / 16) +ℤ pos 1 else track +ℤ pos (n / 16)) e
          ∙ add_pos track (n / 16) 1
          ∙ ap (λ k. track +ℤ pos k) (whole n (==→eq (n % 16) 15 e))
      | inr e ↦
          ap (λ b. if b then track +ℤ pos (n / 16) +ℤ pos 1 else track +ℤ pos (n / 16)) e
          ∙ ap (λ k. track +ℤ pos k) (part n (==→ne (n % 16) 15 e))
    ]

-- A device that completes every operation with one status, and answers every call with one number.
abbrev pub completing : ℕ → ℤ → ℤ → Call → State → ℤ × State
completing unit status answer e t =
    (answer, put_disk unit (record { status = status; is_complete = true }) t)

-- What is asked of the disk for one place: a seek, unless the track is the one of the table, and the
-- sector; each is followed by a wait for the daemon.
abbrev pub calls_for : Operation → ℕ → State → Place → List Call
calls_for op unit s p =
    let sector =
      request (pos unit) op (pos p.sector) p.buffer ∷ mbox_recv (s.disk_mbox unit) ∷ [] in
    if eqb_ℤ (s.disk_track unit) p.track
    then sector
    else request (pos unit) seek_track p.track (pos 0) ∷ mbox_recv (s.disk_mbox unit) ∷ sector

abbrev pub calls_from : Operation → ℕ → State → (ℕ → Place) → ℕ → ℕ → List Call
calls_from op unit s places zero i = []
calls_from op unit s places (suc n) i =
    calls_for op unit s (places i) ++ calls_from op unit s places n (i + 1)

module _ (u : Usloss) (op : Operation) (unit : ℕ) (good answer : ℤ)
    (good_status : eqb_ℤ good u.dev_error ≡ false)
    (found_track : eqb_ℤ u.left_over u.dev_error ≡ false)
    (seek_done : eqb_ℤ (pos 111) u.dev_error ≡ false) where
  env : Call → State → ℤ × State
  env = completing unit good answer

  -- The two tables that no call changes.
  abbrev Same : State → State → Type 0
  Same s t = (t.disk_track unit ≡ s.disk_track unit) × (t.disk_mbox unit ≡ s.disk_mbox unit)

  sector_calls : State → Place → List Call
  sector_calls s p =
      request (pos unit) op (pos p.sector) p.buffer ∷ mbox_recv (s.disk_mbox unit) ∷ []

  -- The state behind a request and the wait for it.
  twice : State → State
  twice s =
      put_disk unit (record { status = good; is_complete = true })
        (put_disk unit (record { status = good; is_complete = true }) s)

  twice-disk : (s : State) → (twice s).disks unit ≡ record { status = good; is_complete = true }
  unfolding twice
  twice-disk s =
      update_self (put_disk unit (record { status = good; is_complete = true }) s).disks unit _

  after_sector :
      (n : ℕ) (p : Place) (s : State)
      → (x : ℤ) × (t : State) × Same s t
        × (calls env (
              bind
                (transfer_sector u op unit p s)
                (λ now v. transfer n u op unit now (next_place p) v))
            ≡ sector_calls s p ++ calls env (transfer n u op unit x (next_place p) t))
  unfolding env twice sector_calls transfer_sector bind calls
  after_sector n p s =
      let w = twice (fill_request unit p.sector s) in
      let x = (w.disks unit).status in
      let t = put_disk unit (record (w.disks unit) { is_complete = false }) w in
      let passed : (is_asserted op && not (w.disks unit).is_complete) ≡ false =
        ap (λ d. is_asserted op && not d.is_complete) (twice-disk (fill_request unit p.sector s))
        ∙ and-false (is_asserted op) in
      (
        x,
        t,
        (refl, refl),
        ap
            (λ b.
              sector_calls s p
              ++ calls env (
                  bind (if b then fault w else done x t)
                    (λ now v. transfer n u op unit now (next_place p) v)))
            passed,
      )
    where
      and-false : (b : Bool) → b && false ≡ false
      and-false true = refl
      and-false false = refl

  transfer-step :
      (n : ℕ) (x : ℤ) (p : Place) (s : State)
      → (y : ℤ) × (t : State) × Same s t
        × (calls env (transfer (suc n) u op unit x p s)
            ≡ calls_for op unit s p ++ calls env (transfer n u op unit y (next_place p) t))
  unfolding env twice sector_calls transfer seek bind calls
  transfer-step n x p s = elim (Bool-cases (eqb_ℤ (s.disk_track unit) p.track)) [
    | inl e ↦
        let (y, t, same, rest) = after_sector n p s in
        (
          y,
          t,
          same,
          ap (λ b. calls env (bind (if b then done u.left_over s else seeking) go_on)) e
              ∙ ap (λ b. calls env (if b then done seek_failed s else sector_from s)) found_track
              ∙ rest
              ∙ ap
                  (λ b.
                    (if b then sector_calls s p else seek_first ++ sector_calls s p)
                    ++ calls env (transfer n u op unit y (next_place p) t))
                  (sym e),
        )
    | inr e ↦
        let v = twice s in
        let (y, t, same, rest) = after_sector n p v in
        let fine : eqb_ℤ (v.disks unit).status u.dev_error ≡ false =
          ap (λ d. eqb_ℤ d.status u.dev_error) (twice-disk s) ∙ good_status in
        (
          y,
          t,
          same,
          ap (λ b. calls env (bind (if b then done u.left_over s else seeking) go_on)) e
              ∙ ap
                  (λ b.
                    seek_first
                    ++ calls env (bind (if b then done u.dev_error v else done (pos 111) v) go_on))
                  fine
              ∙ ap (λ b. seek_first ++ calls env (if b then done seek_failed v else sector_from v))
                  seek_done
              ∙ ap (λ k. seek_first ++ k) rest
              ∙ ap
                  (λ b.
                    (if b then sector_calls s p else seek_first ++ sector_calls s p)
                    ++ calls env (transfer n u op unit y (next_place p) t))
                  (sym e),
        )
  ]
    where
      sector_from : State → Routine Transfer
      sector_from t =
          bind (transfer_sector u op unit p t) (λ now v. transfer n u op unit now (next_place p) v)

      go_on : ℤ → State → Routine Transfer
      go_on found t = if eqb_ℤ found u.dev_error then done seek_failed t else sector_from t

      seeking : Routine ℤ
      seeking = yields (request (pos unit) seek_track p.track (pos 0)) s (λ _ t.
          yields (mbox_recv (t.disk_mbox unit)) t (λ _ v.
            if eqb_ℤ (v.disks unit).status u.dev_error
            then done u.dev_error v
            else done (pos 111) v))

      seek_first : List Call
      seek_first = request (pos unit) seek_track p.track (pos 0) ∷ mbox_recv (s.disk_mbox unit) ∷ []

  calls_from-Same :
      (s t : State) (places : ℕ → Place) (n i : ℕ)
      → Same s t
      → calls_from op unit t places n i ≡ calls_from op unit s places n i
  calls_from-Same s t places zero i same = refl
  calls_from-Same s t places (suc n) i same =
      λ j. for_tables (same.0 j) (same.1 j) ++ calls_from-Same s t places n (i + 1) same j
    where
      for_tables : ℤ → ℤ → List Call
      for_tables track mbox =
          let sector =
            request (pos unit) op (pos (places i).sector) (places i).buffer ∷ mbox_recv mbox ∷ [] in
          if eqb_ℤ track (places i).track
          then sector
          else request (pos unit) seek_track (places i).track (pos 0) ∷ mbox_recv mbox ∷ sector

  -- On a disk that completes every operation without an error, a transfer of `n` sectors asks for
  -- the sectors from the first one on in order: sixteen to a track, then the first of the next
  -- track, each 512 bytes further in the buffer, with a seek before each whose track is not the
  -- one of the table. What Seek returns in the two cases without an error is not the number of the
  -- error, and the calls are all answered by the same number.
  pub transfer-places :
      (n : ℕ) (x : ℤ) (first : ℕ) (track buffer : ℤ) (i : ℕ) (s : State)
      → calls
          (completing unit good answer)
          (transfer n u op unit x (place_at first track buffer i) s)
        ≡ calls_from op unit s (place_at first track buffer) n i
  unfolding env transfer calls
  transfer-places zero x first track buffer i s = refl
  transfer-places (suc n) x first track buffer i s =
      let (y, t, same, step) = transfer-step n x (place_at first track buffer i) s in
      let rest =
        ap (λ p. calls env (transfer n u op unit y p t)) (next_place-place_at first track buffer i)
        ∙ transfer-places n y first track buffer (i + 1) t
        ∙ calls_from-Same s t (place_at first track buffer) n (i + 1) same in
      step ∙ ap (λ k. calls_for op unit s (place_at first track buffer i) ++ k) rest
