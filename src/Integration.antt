-- ===== src/Integration.antt =====
-- The dispatcher and an adapter together: what a call through both comes to.
pub mod Calls
pub mod Deployment
pub mod Routed
pub mod Mock
pub mod Amounts
pub mod Limits
pub mod Privileges
pub mod Queries
pub mod Transfers
