-- ===== src/Phase1/Zap.antt =====
-- zap and isZapped of phase1b/phase1.c.
pub mod Checks
pub mod Blocking
use process_control.Base.{
  ℕ, ◌%◌, ◌==◌, if◌then◌else◌, Bool, true, false, ◌&&◌, not, none, some, is_none,
}
use process_control.Base.Int.{ℤ, pos, pos_part, eqb_ℤ, ltb_ℤ}
use process_control.Base.Run.{done, yields, halted, fault, bind}
use process_control.Phase1.State.{
  ProcessState, Psr, Routine, State, Text, console, max_proc, zap_status, zap_init,
  zap_not_positive, zap_self, zap_missing, zap_dying, put_process, disable_interrupts, get_process,
  getpid,
}
use process_control.Phase1.State.ProcessState.{terminated}
use process_control.Phase1.Dispatch.{is_unset, block_me}

-- `strcmp(state, "Terminated") == 0`.
abbrev pub is_terminated : ProcessState → Bool
is_terminated terminated = true
is_terminated _ = false

-- A message, and `USLOSS_Halt(1)`.
abbrev pub complain : {A : Type 0} → Text → State → Routine A
complain text s = yields (console text) s (λ _ t. halted (pos 1) t)

-- The running process goes to the front of the list of those that zap the target.
abbrev pub push_zapper : ℕ → ℕ → State → State
push_zapper target me s = elim (s.process_table target).zap_head [
  | none ↦ put_process target (record (s.process_table target) { zap_head = some me }) s
  | some old ↦
      let t = put_process target (record (s.process_table target) { zap_head = some me }) s in
      put_process me (record (t.process_table me) { next_zap_node = some old }) t
]

-- `runningProc->iZap = target`.
abbrev pub note_target : ℕ → ℕ → State → State
note_target target me s = put_process me (record (s.process_table me) { i_zap = some target }) s

-- From the checks of the target on: `pid` is positive here.
unfoldable pub zap_target : Psr → ℕ → State → Routine (Unit {0})
unfolding block_me bind
zap_target old_psr pid s =
    let target = pid % max_proc in
    if not ((s.process_table target).is_initialized && (pid == (s.process_table target).pid))
    then complain zap_missing s
    else if is_unset (s.process_table target).state
    then fault s
    else if is_terminated (s.process_table target).state
    then complain zap_dying s
    else elim (get_process (getpid s)) [
      | none ↦ fault s
      | some me ↦
          bind (block_me zap_status (note_target target me (push_zapper target me s)))
            (λ _ t. done tt (record t { psr = old_psr }))
    ]

unfoldable pub zap : ℤ → State → Routine (Unit {0})
unfolding zap_target
zap pid s =
    let t = disable_interrupts s in
    if eqb_ℤ pid (pos 1)
    then complain zap_init t
    else if not (ltb_ℤ (pos 0) pid)
    then complain zap_not_positive t
    else if eqb_ℤ pid (getpid t)
    then complain zap_self t
    else zap_target s.psr (pos_part pid) t

-- The interrupts are turned off and back on before the list is read.
unfoldable pub is_zapped : State → Routine Bool
is_zapped s = elim (get_process (getpid s)) [
  | none ↦ fault s
  | some me ↦ done (not (is_none (s.process_table me).zap_head)) s
]
