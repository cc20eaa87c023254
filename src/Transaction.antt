-- ===== src/Transaction.antt =====
-- The edits of a transaction, in malong/tools/tool-edit-transaction/transaction-store.js.
pub mod Span
pub mod Simulate
pub mod Warnings
