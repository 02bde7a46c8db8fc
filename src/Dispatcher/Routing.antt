-- ===== src/Dispatcher/Routing.antt =====
-- What the dispatcher's three routing instructions send to an adapter, and when.
pub mod Gate
pub mod Deposits
pub mod Withdrawals
pub mod Values
pub mod Rejections
pub mod Wire
