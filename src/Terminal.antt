-- ===== src/Terminal.antt =====
-- UnixAdvancedProgramming/ch18_terminal_io/term_io.c: the modes of a terminal and the reading of a
-- pass word.
pub mod Modes
pub mod Password
mod Examples
