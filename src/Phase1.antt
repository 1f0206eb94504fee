-- ===== src/Phase1.antt =====
-- Phase 1b: processes and the scheduler (phase1b/phase1.c).
pub mod State
pub mod Queue
pub mod Dispatch
pub mod Zap
pub mod Create
pub mod Family
pub mod Start
pub mod Dump
pub mod Examples
pub mod QueueExamples
pub mod Scenarios
pub mod FamilyExamples
