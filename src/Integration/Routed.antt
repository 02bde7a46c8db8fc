-- ===== src/Integration/Routed.antt =====
-- What a routed call comes to, from the dispatcher's handler through an adapter into its protocol.
pub mod Seen
pub mod Deposits
pub mod Withdrawals
pub mod Values
