-- ===== src/Phase4/Start.antt =====
-- phase4_start_service_processes of phase4a/phase4.c.
use process_control.Base.{ℕ, zero, suc, ◌+◌, if◌then◌else◌, update}
use process_control.Base.Int.{ℤ, pos, eqb_ℤ}
use process_control.Base.Run.{done, yields, fault, bind}
use process_control.Phase4.State.{State, Routine, max_line, control, fork_daemon, mbox_create}

-- The interrupts of the terminals `unit`, …; an answer that is not USLOSS_DEV_OK fails an `assert`.
unfoldable pub enable_terminals : ℤ → ℕ → ℕ → State → Routine (Unit {0})
enable_terminals dev_ok zero unit s = done tt s
enable_terminals dev_ok (suc units) unit s = yields (control (pos unit) (pos 6)) s (λ answer t.
    if eqb_ℤ answer dev_ok then enable_terminals dev_ok units (unit + 1) t else fault t)

unfoldable pub fork_daemons : ℕ → ℕ → State → Routine (Unit {0})
fork_daemons zero i s = done tt s
fork_daemons (suc daemons) i s =
    yields (fork_daemon i) s (λ pid t.
      fork_daemons daemons (i + 1) (record t { daemon_pids = update t.daemon_pids i pid }))

-- The arrays of mailboxes.
pub data Boxes : Type 0 where
  term_lock term_read term_write disk_size disk_lock disk_mbox : Boxes

abbrev pub store : Boxes → ℕ → ℤ → State → State
store term_lock i id s = record s { term_lock_mbox = update s.term_lock_mbox i id }
store term_read i id s = record s { term_read_mbox = update s.term_read_mbox i id }
store term_write i id s = record s { term_write_mbox = update s.term_write_mbox i id }
store disk_size i id s = record s { disk_size_mbox = update s.disk_size_mbox i id }
store disk_lock i id s = record s { disk_lock = update s.disk_lock i id }
store disk_mbox i id s = record s { disk_mbox = update s.disk_mbox i id }

-- `array[i] = MboxCreate(slots, size);` for the entries `i`, ….
unfoldable pub create_boxes : ℕ → Boxes → ℕ → ℕ → ℕ → State → Routine (Unit {0})
create_boxes zero array slots size i s = done tt s
create_boxes (suc count) array slots size i s =
    yields (mbox_create slots size) s
      (λ id t. create_boxes count array slots size (i + 1) (store array i id t))

unfoldable pub phase4_start_service_processes : ℤ → State → Routine (Unit {0})
unfolding enable_terminals fork_daemons create_boxes bind
phase4_start_service_processes dev_ok s = bind (enable_terminals dev_ok 4 0 s) (λ _ s1.
    bind (fork_daemons 7 0 s1) (λ _ s2. bind (create_boxes 4 term_lock 1 0 0 s2) (λ _ s3.
      bind (create_boxes 4 term_read 10 max_line 0 s3) (λ _ s4.
        bind (create_boxes 4 term_write 1 1 0 s4) (λ _ s5.
          bind (create_boxes 2 disk_size 0 0 0 s5) (λ _ s6.
            bind (create_boxes 2 disk_lock 1 0 0 s6)
              (λ _ s7. create_boxes 2 disk_mbox 1 0 0 s7)))))))
