-- ===== src/Transactions.antt =====
-- Transactions and the watermark of their reads: src/include/concurrency.
pub mod Watermark
pub mod Tracking
pub mod Oldest
pub mod Removal
pub mod Manager
pub mod Begin
