-- ===== src/Phase4.antt =====
-- Phase 4a: the drivers of the clock, the terminals and the disks (phase4a/phase4.c).
pub mod State
pub mod Sleep
pub mod Terminal
pub mod Disk
pub mod Start
pub mod Table
pub mod Examples
