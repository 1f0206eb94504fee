-- ===== src/Phase3/Spawn/Drift.antt =====
-- The pids of the shadow processes of phase3/phase3.c, which are counted apart from those of fork1.
use process_control.Base.{ℕ, ◌+◌, ◌%◌, ◌≡◌, ◌≢◌, refl, ap, ◌∙◌, arith, update_self, update_ne}
use process_control.Base.Int.{pos}
use process_control.Base.Run.{done, settle}
use process_control.Base.Sysargs.{Sysargs}
use process_control.Phase3.State.{State, Answer, max_proc}
use process_control.Phase3.Spawn.{pointer, create_shadow_process, kern_spawn}

-- What two spawns leave, whatever fork1 answers, in an environment that leaves the state.
abbrev spawned_twice : Sysargs → Sysargs → State → State
spawned_twice first second s =
    create_shadow_process (pointer second.arg1) second.arg2
      (create_shadow_process (pointer first.arg1) first.arg2 s)

-- The entry of a pid is the one that the phase counts, also when fork1 made no process: after a
-- first spawn, whatever fork1 answers, and a second one, to which fork1 gives the pid that the
-- phase had counted for the first, the entry that the trampoline starts for that pid is still the
-- first one. The environment leaves the state.
pub kern_spawn-drift :
    (first second : Sysargs) (refused given : Answer) (s : State)
    → given.result ≡ pos s.pid_counter
    → (t : State) × (settle (λ e u. (refused, u)) (kern_spawn first s)
        ≡ done (record first { arg1 = refused.result }) t)
      × ((u : State) × (settle (λ e v. (given, v)) (kern_spawn second t)
            ≡ done (record second { arg1 = pos s.pid_counter }) u)
          × (u.shadow_process_table (s.pid_counter % max_proc)
              ≡ record { pid = s.pid_counter; start_func = pointer first.arg1; arg = first.arg2 }))
unfolding kern_spawn create_shadow_process settle
kern_spawn-drift first second refused given s e = (
  create_shadow_process (pointer first.arg1) first.arg2 s,
  refl,
  (
    spawned_twice first second s,
    ap (λ k. done (record second { arg1 = k }) (spawned_twice first second s)) e,
    update_ne (create_shadow_process (pointer first.arg1) first.arg2 s).shadow_process_table _
          (other s.pid_counter)
        ∙ update_self s.shadow_process_table (s.pid_counter % max_proc) _,
  ),
)
  where
    other : (n : ℕ) → (n + 1) % 50 ≢ n % 50
    other n h = absurd (omega arith)
