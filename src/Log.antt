-- ===== src/Log.antt =====
-- internal/log: the logger, which keeps credentials out of its output.
pub mod Redact
pub mod Edited
pub mod Clean
pub mod Search
pub mod Absent
pub mod Masking
pub mod Redaction
pub mod Level
pub mod Attr
pub mod Output
