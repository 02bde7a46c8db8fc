-- ===== src/Dispatcher/Outcomes.antt =====
-- What each instruction of the dispatcher ends with, on every input: its checks in order, each with
-- its error.
pub mod Checks
pub mod Deposits
pub mod Withdrawals
pub mod Values
pub mod Toggles
pub mod Registrations
pub mod Foundings
