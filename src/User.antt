-- ===== src/User.antt =====
-- The user-mode stubs of the system calls (phase3/phase3_usermode.c, phase4a/phase4_usermode.c) and
-- the way from a stub to its handler.
pub mod State
pub mod Kernel
pub mod Devices
pub mod Link
pub mod Casts
pub mod Semaphores
pub mod Processes
pub mod Drivers
pub mod Terminals
pub mod Examples
