-- ===== src/Threads.antt =====
-- UnixAdvancedProgramming/ch7_12_process: the objects that threads share under locks.
pub mod JobQueue
mod Examples
pub mod FooTable
pub mod Timeout
pub mod Refcount
pub mod Barrier
pub mod WorkQueue
