-- ===== src/File.antt =====
-- The formats that tables are read from and written to: the code in src/file.
pub mod Example
mod Examples
