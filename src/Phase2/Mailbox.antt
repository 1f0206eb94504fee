-- ===== src/Phase2/Mailbox.antt =====
-- The operations on a mailbox: MboxSend, MboxRecv, MboxCondSend, MboxCondRecv and MboxRelease of
-- phase2/phase2.c. `malloc n` says whether an allocation of n bytes succeeds, and `me` is `getpid()`.
pub mod Send
pub mod Recv
pub mod Cond
pub mod Release
pub mod Contents
pub mod Queueing
pub mod Leaks
