-- ===== src/Unp/Examples.antt =====
-- Runs of the calls of util/unp.c on concrete streams.
mod Streams
mod Lines
