-- ===== src/Write.antt =====
-- What decides whether an edit may be written, in malong/write-runtime.js.
pub mod Conflict
pub mod Validation
