-- ===== src/Adapters/Jupiter.antt =====
-- programs/jupiter-adapter: its constants (constants.rs), its id and its modules. A constant that
-- has the name of a function carries the suffix `_bytes`.
pub mod Deposit
pub mod Withdraw
pub mod CurrentValue
pub mod Values
pub mod Standard
pub mod Withdrawals
pub mod Deposits
use solana_yield_adapter_sta.Prelude.{ℕ, List, [], ◌∷◌}
use solana_yield_adapter_sta.Solana.Accounts.{Pubkey}

abbrev pub deposit_collateral_for_borrows_discriminator : List ℕ
deposit_collateral_for_borrows_discriminator = 17 ∷ 2 ∷ 195 ∷ 190 ∷ 76 ∷ 16 ∷ 238 ∷ 74 ∷ []

abbrev pub withdraw_collateral_for_borrows_discriminator : List ℕ
withdraw_collateral_for_borrows_discriminator = 117 ∷ 160 ∷ 60 ∷ 82 ∷ 237 ∷ 233 ∷ 46 ∷ 182 ∷ []

abbrev pub add_liquidity2_bytes : List ℕ
add_liquidity2_bytes = 228 ∷ 162 ∷ 78 ∷ 28 ∷ 70 ∷ 219 ∷ 116 ∷ 115 ∷ []

abbrev pub remove_liquidity_bytes : List ℕ
remove_liquidity_bytes = 230 ∷ 215 ∷ 82 ∷ 127 ∷ 241 ∷ 101 ∷ 227 ∷ 146 ∷ []

-- PERPHjGBqRHArX4DySjwM6UJHiR3sWAatqfdBS2qQJu
abbrev pub program_id : Pubkey
program_id = 0xfa45819b9c2e1294e820c6323a1be39e3dcd75deabf06087ef6294f1caf3b105

-- CqNUZykVkiQsGTW8rQRSm4cm2DtXgMCmNRvWfgHV9nB2
abbrev pub id : Pubkey
id = 0x59d44b7e3ecfc39b9bf6d084bfb66f78634eb314bf1c416c41958b8e9db7d4af
