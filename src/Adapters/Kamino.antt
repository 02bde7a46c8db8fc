-- ===== src/Adapters/Kamino.antt =====
-- programs/kamino-adapter: its constants (constants.rs), its id and its modules. A constant that
-- has the name of a function carries the suffix `_bytes`.
pub mod Deposit
pub mod Withdraw
pub mod CurrentValue
pub mod Values
pub mod Standard
pub mod Withdrawals
pub mod Deposits
use solana_yield_adapter_sta.Prelude.{ℕ, List, [], ◌∷◌}
use solana_yield_adapter_sta.Solana.Accounts.{Pubkey}

abbrev pub deposit_reserve_liquidity_and_obligation_collateral_v2_discriminator : List ℕ
deposit_reserve_liquidity_and_obligation_collateral_v2_discriminator =
    216 ∷ 224 ∷ 191 ∷ 27 ∷ 204 ∷ 151 ∷ 102 ∷ 175 ∷ []

abbrev pub deposit_reserve_liquidity_bytes : List ℕ
deposit_reserve_liquidity_bytes = 169 ∷ 201 ∷ 30 ∷ 126 ∷ 6 ∷ 205 ∷ 102 ∷ 68 ∷ []

abbrev pub deposit_obligation_collaterla_v2 : List ℕ
deposit_obligation_collaterla_v2 = 108 ∷ 209 ∷ 4 ∷ 72 ∷ 21 ∷ 22 ∷ 118 ∷ 133 ∷ []

abbrev pub deposit_and_withdraw_bytes : List ℕ
deposit_and_withdraw_bytes = 141 ∷ 153 ∷ 39 ∷ 15 ∷ 64 ∷ 61 ∷ 88 ∷ 84 ∷ []

abbrev pub withdraw_obligation_collateral_and_redeem_reserve_collateral_v2_bytes : List ℕ
withdraw_obligation_collateral_and_redeem_reserve_collateral_v2_bytes =
    235 ∷ 52 ∷ 119 ∷ 152 ∷ 149 ∷ 197 ∷ 20 ∷ 7 ∷ []

abbrev pub redeem_reserve_collateral_bytes : List ℕ
redeem_reserve_collateral_bytes = 234 ∷ 117 ∷ 181 ∷ 125 ∷ 185 ∷ 142 ∷ 220 ∷ 29 ∷ []

-- KLend2g3cP87fffoy8q1mQqGKjrxjC8boSyAYavgmjD
abbrev pub program_id : Pubkey
program_id = 0x8005b43b369beb612af152f710211f93dff72a88b412c68e3cc5812b1acb204

-- BaxHrSyiFkoS4on2HmmEBCAL7BwMfXnZarpHNx6V3GrT
abbrev pub id : Pubkey
id = 0xc0947ecd5f2ba651b0a0cb8829dff8e6b953e0d77463956266ba95819e8d479d
