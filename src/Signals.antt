-- ===== src/Signals.antt =====
-- UnixAdvancedProgramming/ch7_12_process/process_relation.c: signals.
pub mod SigSet
pub mod Tell
pub mod Actions
pub mod System
pub mod Abort
mod Examples
