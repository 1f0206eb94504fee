-- ===== src/Phase1/Start/First.antt =====
-- The first dispatch of phase1b/phase1.c.
use process_control.Base.{◌≡◌, ap, ◌∙◌, none, some}
use process_control.Base.Int.{ℤ, minus_one}
use process_control.Base.Run.{fault, settle}
use process_control.Phase1.State.{State, Call, start_services, disable_interrupts, get_process}
use process_control.Phase1.Dispatch.{dispatcher, dispatch_from, charge}
use process_control.Phase1.Start.{start_processes}

dispatcher-fault :
    (s : State) → s.running_process_id ≡ minus_one → dispatcher s ≡ fault (disable_interrupts s)
unfolding dispatcher
dispatcher-fault s e =
    ap
      (λ o. elim o [
        | none ↦ fault (disable_interrupts s)
        | some slot ↦ dispatch_from s.psr (charge slot (disable_interrupts s))
      ])
      (ap get_process e)

-- The start of the kernel reads outside the process table: whatever the services of the upper phases
-- do, as long as no process runs before the first dispatch, the dispatcher charges the time to the
-- entry of the pid -1.
pub start_processes-fault :
    (env : Call → State → ℤ × State) (s : State)
    → ((e : Call) (t : State) → ((env e t).1).running_process_id ≡ t.running_process_id)
    → s.running_process_id ≡ minus_one
    → (t : State) × (settle env (start_processes s) ≡ fault t)
unfolding start_processes settle
start_processes-fault env s keeps none_runs =
    let t = (env (start_services 2) s).1 in
    let u = (env (start_services 3) t).1 in
    let v = (env (start_services 4) u).1 in
    let w = (env (start_services 5) v).1 in
    let still : w.running_process_id ≡ minus_one =
      keeps (start_services 5) v
      ∙ keeps (start_services 4) u
      ∙ keeps (start_services 3) t
      ∙ keeps (start_services 2) s
      ∙ none_runs in
    (disable_interrupts w, ap (settle env) (dispatcher-fault w still))
