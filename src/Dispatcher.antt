-- ===== src/Dispatcher.antt =====
-- programs/dispatcher: its id, the seeds of its accounts (constants.rs) and its modules.
pub mod State
pub mod RegistryInit
pub mod AdapterInit
pub mod ToggleAdapter
pub mod Deposit
pub mod Withdraw
pub mod CurrentValue
pub mod Routing
pub mod Lifecycle
pub mod Outcomes
pub mod Directory
pub mod Transactions
