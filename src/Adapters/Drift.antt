-- ===== src/Adapters/Drift.antt =====
-- programs/drift-adapter: its constants (constants.rs), its id and its modules. A constant that
-- has the name of a function carries the suffix `_bytes`.
pub mod Deposit
pub mod Withdraw
pub mod CurrentValue
pub mod Values
pub mod Standard
pub mod Withdrawals
pub mod Deposits
use solana_yield_adapter_sta.Prelude.{ℕ, List, [], ◌∷◌}
use solana_yield_adapter_sta.Solana.Accounts.{Pubkey}

abbrev pub deposit_bytes : List ℕ
deposit_bytes = 242 ∷ 35 ∷ 198 ∷ 137 ∷ 82 ∷ 225 ∷ 242 ∷ 182 ∷ []

abbrev pub withdraw_bytes : List ℕ
withdraw_bytes = 183 ∷ 18 ∷ 70 ∷ 156 ∷ 148 ∷ 109 ∷ 161 ∷ 34 ∷ []

abbrev pub add_insurance_fund_stake_bytes : List ℕ
add_insurance_fund_stake_bytes = 251 ∷ 144 ∷ 115 ∷ 11 ∷ 222 ∷ 47 ∷ 62 ∷ 236 ∷ []

abbrev pub request_remove_insurance_fund_stake_bytes : List ℕ
request_remove_insurance_fund_stake_bytes = 142 ∷ 70 ∷ 204 ∷ 92 ∷ 73 ∷ 106 ∷ 180 ∷ 52 ∷ []

abbrev pub remove_insurance_fund_stake_bytes : List ℕ
remove_insurance_fund_stake_bytes = 128 ∷ 166 ∷ 142 ∷ 9 ∷ 254 ∷ 187 ∷ 143 ∷ 174 ∷ []

abbrev pub initialize_insurance_fund_stake_bytes : List ℕ
initialize_insurance_fund_stake_bytes = 187 ∷ 179 ∷ 243 ∷ 70 ∷ 248 ∷ 90 ∷ 92 ∷ 147 ∷ []

-- dRiftyHA39MWEi3m9aunc5MzRF1JYuBsbn6VPcn33UH
abbrev pub program_id : Pubkey
program_id = 0xf6534a85891f5679814bae51d180e16f963613e23f297a8ac960c99ebedb5409

-- EojJcwUUuTuHyTJDyFjUjSxHbZLBuqJt7KPpBR6rVKZb
abbrev pub id : Pubkey
id = 0x7a0ee01a81da4805b59fbfb5e5af998be4a7c8000ed2dd591b1aa63af57a20cd
