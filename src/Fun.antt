-- ===== src/Fun.antt =====
-- The functions that fill the columns, under src/fun.
pub mod Base
pub mod Acculate
pub mod UniqueRandom
pub mod Files
pub mod Parameters
mod Examples
