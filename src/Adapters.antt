-- ===== src/Adapters.antt =====
-- The reference adapters of programs/, one module to each.
pub mod Kamino
pub mod Marginfi
pub mod Jupiter
pub mod Maple
pub mod Drift
pub mod Mock
pub mod Relay
pub mod Answer
pub mod Standard
pub mod Venue
pub mod Amounts
