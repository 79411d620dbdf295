-- ===== src/Apue.antt =====
-- UnixAdvancedProgramming/common/apue.c: the helpers that the programs of that book share.
pub mod Readn
pub mod Writen
pub mod FdPass
pub mod Locks
pub mod Report
pub mod UnixSocket
mod Examples
