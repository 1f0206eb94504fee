-- ===== src/Phase1/Zap/Checks.antt =====
-- The checks of zap of phase1b/phase1.c.
use process_control.Base.{
  ℕ, ◌%◌, ◌==◌, if◌then◌else◌, ◌≡◌, refl, Bool, true, false, ◌&&◌, ◌||◌, not,
}
use process_control.Base.Int.{ℤ, pos, pos_part, eqb_ℤ, ltb_ℤ}
use process_control.Base.Run.{halted, settle}
use process_control.Phase1.State.{
  Call, Psr, Routine, State, max_proc, disable_interrupts, getpid, zap_init, zap_not_positive,
  zap_self, zap_missing, zap_dying, Text, ProcessState, console,
}
use process_control.Phase1.State.ProcessState.{
  unset, runnable, running, blocked_zap, blocked_join, blocked, terminated, removed,
}
use process_control.Phase1.Dispatch.{is_unset}
use process_control.Phase1.Zap.{is_terminated, complain, zap_target, zap}

-- A target that may not be zapped: no process of that pid, or one that has ended.
abbrev pub is_gone : ℕ → State → Bool
is_gone pid s =
    let p = s.process_table (pid % max_proc) in
    not (p.is_initialized && (pid == p.pid)) || is_terminated p.state

-- Init, no process at all, the caller, or a target that is gone.
abbrev pub is_protected : ℤ → State → Bool
is_protected pid s =
    eqb_ℤ pid (pos 1)
    || (not (ltb_ℤ (pos 0) pid) || (eqb_ℤ pid (getpid s) || is_gone (pos_part pid) s))

-- A routine that halts with code 1.
abbrev Halts : (Call → State → ℤ × State) → Routine (Unit {0}) → Type 0
Halts env r = (t : State) × (settle env r ≡ halted (pos 1) t)

module _ (env : Call → State → ℤ × State) where
  Halts-if :
      (b : Bool) (x y : Routine (Unit {0}))
      → (b ≡ true → Halts env x)
      → (b ≡ false → Halts env y)
      → Halts env (if b then x else y)
  Halts-if true x y holds fails = holds refl
  Halts-if false x y holds fails = fails refl

  complain-Halts : (text : Text) (s : State) → Halts env (complain text s)
  unfolding settle
  complain-Halts text s = ((env (console text) s).1, refl)

  not_both : (x : ProcessState) → is_unset x ≡ true → is_terminated x ≡ true → ⊥
  not_both unset u t = cc
  not_both terminated u t = cc
  not_both runnable u t = cc
  not_both running u t = cc
  not_both blocked_zap u t = cc
  not_both blocked_join u t = cc
  not_both blocked u t = cc
  not_both removed u t = cc

  or-right : (a b : Bool) → a ≡ false → a || b ≡ true → b ≡ true
  or-right true b e h = cc
  or-right false b e h = h

  zap_target-Halts :
      (old_psr : Psr) (pid : ℕ) (s : State)
      → is_gone pid s ≡ true
      → Halts env (zap_target old_psr pid s)
  unfolding zap_target
  zap_target-Halts old_psr pid s gone =
      let p = s.process_table (pid % max_proc) in
      Halts-if (not (p.is_initialized && (pid == p.pid))) _ _ (λ e. complain-Halts zap_missing s)
        (λ there.
          let dead : is_terminated p.state ≡ true = or-right _ _ there gone in
          Halts-if (is_unset p.state) _ _ (λ e. absurd (not_both p.state e dead))
            (λ e.
              Halts-if (is_terminated p.state) _ _ (λ k. complain-Halts zap_dying s)
                (λ k. absurd (cc (k, dead)))))

-- Whatever runs meanwhile, an attempt to zap init, a pid that is not positive, the caller itself, a
-- pid without a process, or a process that has ended stops the machine with code 1.
pub zap-Halts :
    (env : Call → State → ℤ × State) (pid : ℤ) (s : State)
    → is_protected pid s ≡ true
    → (t : State) × (settle env (zap pid s) ≡ halted (pos 1) t)
unfolding zap
zap-Halts env pid s protected =
    let t = disable_interrupts s in
    Halts-if env (eqb_ℤ pid (pos 1)) _ _ (λ e. complain-Halts env zap_init t)
      (λ not_init.
        Halts-if env (not (ltb_ℤ (pos 0) pid)) _ _ (λ e. complain-Halts env zap_not_positive t)
          (λ positive.
            Halts-if env (eqb_ℤ pid (getpid s)) _ _ (λ e. complain-Halts env zap_self t)
              (λ other. zap_target-Halts env s.psr (pos_part pid) t (
                or-right env _ _ other
                  (or-right env _ _ positive (or-right env _ _ not_init protected))))))
