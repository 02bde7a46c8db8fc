-- ===== src/Tests.antt =====
-- Concrete worlds, runs on them, and the theorems at them.
pub mod Fixtures
mod Routing
mod Lifecycle
mod Selectors
mod Queries
mod Reading
pub mod Runtimes
mod Deployed
mod Mock
mod Outcomes
pub mod Directory
mod Privileges
mod Transactions
mod Limits
