-- ===== src/Adapters/Marginfi.antt =====
-- programs/marginfi-adapter: its constants (constants.rs), its id and its modules. A constant that
-- has the name of a function carries the suffix `_bytes`.
pub mod Deposit
pub mod Withdraw
pub mod CurrentValue
pub mod Values
pub mod Truncation
pub mod Standard
pub mod Withdrawals
pub mod Deposits
use solana_yield_adapter_sta.Prelude.{ℕ, List, [], ◌∷◌}
use solana_yield_adapter_sta.Solana.Accounts.{Pubkey}

abbrev pub lending_account_deposit_discriminator : List ℕ
lending_account_deposit_discriminator = 171 ∷ 94 ∷ 235 ∷ 103 ∷ 82 ∷ 64 ∷ 212 ∷ 140 ∷ []

abbrev pub lending_account_withdraw_discriminator : List ℕ
lending_account_withdraw_discriminator = 36 ∷ 72 ∷ 74 ∷ 19 ∷ 210 ∷ 210 ∷ 192 ∷ 192 ∷ []

-- MFv2hWf31Z9kbCa1snEPYctwafyhdvnV7FZnsebVacA
abbrev pub program_id : Pubkey
program_id = 0x3b374e22e6396ac82e31a6588c86c8b88ba1539205924e1e5ebc4b45d67a3005

-- 43vGkNHfLML24Df9xCJddmwsx1mbje34yVsH13bqnbny
abbrev pub id : Pubkey
id = 0xfae41c0da407cc07c6a5bb3a637288c95c444088a3509a36d83f7c82e974522d
