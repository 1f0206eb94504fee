-- ===== src/Phase1a.antt =====
-- Phase 1a: processes that hand the processor over by hand (phase1a/phase1.c).
pub mod State
pub mod Create
pub mod Family
pub mod Start
pub mod Equivalence
pub mod Examples
