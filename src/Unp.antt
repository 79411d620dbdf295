-- ===== src/Unp.antt =====
-- UnixNetworkProgrammingVol1/util/unp.c: the wrapped calls that the network programs share.
pub mod Readn
pub mod Writen
pub mod Flags
pub mod Sctp
pub mod NetDb
pub mod SockOpt
mod Examples
pub mod Wrappers
pub mod Readline
