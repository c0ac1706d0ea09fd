-- ===== src/Com.antt =====
-- The common helpers under src/com.
pub mod Random
pub mod Clock
pub mod Value
pub mod Types
pub mod Text
pub mod Bytes
pub mod Tags
pub mod Stack
mod Examples
