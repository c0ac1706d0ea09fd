-- ===== src/Sub.antt =====
-- The code under src/sub: the layout that the XML parser makes, and the shuffle of a file's lines.
pub mod Shuffle
pub mod Parser
mod Examples
