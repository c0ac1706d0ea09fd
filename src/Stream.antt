-- ===== src/Stream.antt =====
-- The threads that stream tables to clients: the code in src/stream.
pub mod Workers
pub mod Runs
pub mod Fifo
pub mod Least
mod Examples
