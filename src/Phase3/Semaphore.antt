-- ===== src/Phase3/Semaphore.antt =====
-- semCreate, kernSemCreate, kernSemP and kernSemV of phase3/phase3.c. A handler gives back the
-- system call's arguments; what it returns itself is not used.
pub mod Counting
pub mod Creation
use process_control.Base.{
  ℕ, zero, suc, ◌+◌, ltb, if◌then◌else◌, Bool, true, false, ◌||◌, Option, none, some,
}
use process_control.Base.Int.{ℤ, pos, negsuc, minus_one, is_neg, ◌+ℤ◌, eqb_ℤ, ltb_ℤ}
use process_control.Base.Run.{done, yields, fault}
use process_control.Base.Sysargs.{Sysargs}
use process_control.Phase3.State.{
  Semaphore, State, Answer, Routine, max_sems, mbox_create, mbox_send, mbox_recv, put_semaphore,
}

-- The first entry from `i` on whose mailbox is 0, in `rounds` entries.
unfoldable pub open_semaphore : ℕ → (ℕ → Semaphore) → ℕ → Option ℕ
open_semaphore zero table i = none
open_semaphore (suc rounds) table i =
    let rest = open_semaphore rounds table (i + 1) in
    if eqb_ℤ (table i).mbox_id (pos 0) then some i else rest

-- Whether an entry was filled; `false` is the answer -1.
unfoldable pub sem_create : ℤ → ℤ → State → Bool × State
unfolding open_semaphore
sem_create id val s = elim (open_semaphore max_sems s.semaphore_table 0) [
  | none ↦ (false, s)
  | some i ↦ (
    true,
    record (put_semaphore i (record { sem_id = i; mbox_id = id; value = val }) s) {
      sem_counter = s.sem_counter + 1;
    },
  )
]

-- `left_over` is what a caller finds when semCreate returns without a value.
unfoldable pub kern_sem_create : ℤ → Sysargs → State → Routine Sysargs
unfolding sem_create
kern_sem_create left_over args s = yields (mbox_create 0 0) s (λ answer t.
    let (created, u) = sem_create answer.result args.arg1 t in
    if eqb_ℤ (if created then left_over else minus_one) minus_one || is_neg args.arg1
    then done (record args { arg4 = minus_one; arg1 = pos 0 }) u
    else done (record args { arg4 = pos 0; arg1 = pos u.sem_counter +ℤ minus_one }) u)

-- An index of the semaphore table.
abbrev pub sem_index : ℤ → Option ℕ
sem_index (pos n) = if ltb n max_sems then some n else none
sem_index (negsuc n) = none

abbrev pub add_value : ℕ → ℤ → State → State
add_value i d s =
    put_semaphore i (record (s.semaphore_table i) { value = (s.semaphore_table i).value +ℤ d }) s

-- Behind the blocking call: a call that failed is taken back.
abbrev pub settle_call : ℕ → ℤ → Sysargs → Answer → State → Routine Sysargs
settle_call i back args answer t =
    if eqb_ℤ answer.result minus_one
    then done (record args { arg4 = minus_one }) (add_value i back t)
    else done (record args { arg4 = pos 0 }) t

unfoldable pub kern_sem_p : Sysargs → State → Routine Sysargs
kern_sem_p args s = elim (sem_index args.arg1) [
  | none ↦ fault s
  | some i ↦
      let t = add_value i minus_one s in
      if is_neg (t.semaphore_table i).value
      then yields (mbox_recv (s.semaphore_table i).mbox_id) t (settle_call i (pos 1) args)
      else done (record args { arg4 = pos 0 }) t
]

unfoldable pub kern_sem_v : Sysargs → State → Routine Sysargs
kern_sem_v args s = elim (sem_index args.arg1) [
  | none ↦ fault s
  | some i ↦
      let t = add_value i (pos 1) s in
      if ltb_ℤ (pos 0) (t.semaphore_table i).value
      then done (record args { arg4 = pos 0 }) t
      else yields (mbox_send (s.semaphore_table i).mbox_id) t (settle_call i minus_one args)
]
