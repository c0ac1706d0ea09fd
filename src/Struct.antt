-- ===== src/Struct.antt =====
-- The objects of a table: the code in src/struct.
pub mod Objects
pub mod Rows
pub mod Sending
pub mod Percent
pub mod Schedule
mod Examples
