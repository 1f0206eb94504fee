-- ===== src/Phase3.antt =====
-- Phase 3: system calls and semaphores (phase3/phase3.c).
pub mod State
pub mod Semaphore
pub mod Spawn
pub mod Examples
pub mod Table
