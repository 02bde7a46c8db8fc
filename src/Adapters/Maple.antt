-- ===== src/Adapters/Maple.antt =====
-- programs/maple-adapter: its constants (constants.rs), its id and its modules. A constant that
-- has the name of a function carries the suffix `_bytes`.
pub mod Deposit
pub mod Withdraw
pub mod CurrentValue
pub mod Values
pub mod Standard
pub mod Withdrawals
pub mod Deposits
use solana_yield_adapter_sta.Prelude.{ℕ, List, [], ◌∷◌}
use solana_yield_adapter_sta.Solana.Accounts.{Pubkey}

abbrev pub ccip_send_bytes : List ℕ
ccip_send_bytes = 108 ∷ 216 ∷ 134 ∷ 191 ∷ 249 ∷ 234 ∷ 33 ∷ 84 ∷ []

-- Ccip842gzYHhvdDkSyi2YVCoAWPbYJoApMFzSxQroE9C
abbrev pub program_id : Pubkey
program_id = 0x8f2c5926f9436ff788dfc71bedab342ff54f991f2986c6f6ffb5bae1772997ac

-- 7A1CFrXTEw96vdtsYPG1h5vhXbFCszaipfavL1XhgQKL
abbrev pub id : Pubkey
id = 0x3b78462a6805b922a8fc67f2df7a58f8e0fc5c7170c69d0c0ae74e8d7a91745b
