-- ===== src/Signals/Examples.antt =====
-- Runs of the signal programs on concrete processes.
mod Turns
mod Commands
