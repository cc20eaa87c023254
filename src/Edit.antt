-- ===== src/Edit.antt =====
-- malong/write-edit.js and the batch item of malong/write-runtime.js: edits on the lines of a file.
pub mod Diff
pub mod Brackets
pub mod Apply
pub mod Batch
