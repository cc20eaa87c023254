-- ===== src/Tests.antt =====
-- Runs of the models, and the theorems at concrete inputs.
mod Queueing
mod Quoting
mod Calls
mod Checks
mod Editing
mod Tasks
mod Writing
mod Proving
mod Spans
mod Working
mod Sweeping
mod Anchors
mod Patching
mod Requests
mod Undoing
mod Batches
mod Locking
mod Staging
