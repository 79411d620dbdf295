-- ===== src/Files.antt =====
-- UnixAdvancedProgramming/ch13_io: input and output of files.
pub mod AioCopy
mod Examples
