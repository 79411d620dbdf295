-- ===== src/Threads/Examples.antt =====
-- Runs of the thread programs on concrete objects.
mod Queues
mod Objects
mod Sorting
mod Messages
