-- ===== src/Phase2.antt =====
-- Phase 2: mailboxes, device waiting and the syscall vector (phase2/phase2.c).
pub mod State
pub mod Slots
pub mod Queue
pub mod Mailbox
pub mod Device
pub mod Interrupts
pub mod Examples
pub mod Scenarios
