-- ===== src/Phase2/Interrupts.antt =====
-- enableInterrupts and disableInterrupts of phase2/phase2.c, which set or clear one bit.
use process_control.Base.{true, false}
use process_control.Phase1.State.{Psr}

abbrev pub enable_interrupts : Psr → Psr
enable_interrupts psr = record psr { interrupts = true }

abbrev pub disable_interrupts : Psr → Psr
disable_interrupts psr = record psr { interrupts = false }
