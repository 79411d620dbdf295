-- ===== src/Process.antt =====
-- Child processes behind pipes, and processes that detach themselves: UnixAdvancedProgramming/ch13_io.
pub mod Popen
pub mod Daemon
mod Examples
