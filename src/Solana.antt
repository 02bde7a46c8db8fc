-- ===== src/Solana.antt =====
-- The Solana runtime and the parts of Anchor that the programs stand on.
pub mod Accounts
pub mod Result
pub mod World
pub mod Anchor
