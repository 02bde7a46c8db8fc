-- ===== src/Dispatcher/Transactions.antt =====
-- The dispatcher under whole transactions: lists of instructions that take effect together or not
-- at all.
pub mod Runs
pub mod Silence
pub mod Availability
pub mod Orders
