-- ===== src/Network.antt =====
-- UnixNetworkProgrammingVol1: the echo servers of ch4_tcp and a client of them, and `connect` with a time-out;
-- and the sockets of ch13_io/network_ipc.c.
pub mod PollServer
pub mod SelectServer
pub mod Ipc
pub mod Echo
pub mod BatchClient
pub mod ConnectTimeout
mod Examples
