-- ===== src/Interface.antt =====
-- crates/yield-adapter-interface/src/lib.rs: the constants, arguments, statuses and return-data
-- helpers that the dispatcher and the adapters share.
pub mod Layout
pub mod Status
pub mod ReturnData
pub mod Reads
use solana_yield_adapter_sta.Prelude.{
  [], ◌∷◌, ◌+◌, ℕ, ⊤, Option, none, some, List, [], ◌∷◌, Bool, true, false, ◌==◌, leb,
  if◌then◌else◌, length, take,
}
use solana_yield_adapter_sta.Prelude.Bytes.{le_bytes, from_le_bytes}
use solana_yield_adapter_sta.Types.{interface}
use solana_yield_adapter_sta.Types.Interface.{missing_return_data, invalid_return_data}
use solana_yield_adapter_sta.Solana.Accounts.{Pubkey}
use solana_yield_adapter_sta.Solana.Result.{ok, err}
use solana_yield_adapter_sta.Solana.World.{Action, ◌>>=◌, ◌>>◌, pure, require, set_return_data}

abbrev pub extra_data_max_len : ℕ
extra_data_max_len = 64

abbrev pub adapter_deposit_discriminator : List ℕ
adapter_deposit_discriminator = 190 ∷ 207 ∷ 72 ∷ 186 ∷ 232 ∷ 106 ∷ 46 ∷ 72 ∷ []

abbrev pub adapter_withdraw_discriminator : List ℕ
adapter_withdraw_discriminator = 121 ∷ 55 ∷ 72 ∷ 46 ∷ 185 ∷ 100 ∷ 173 ∷ 236 ∷ []

abbrev pub adapter_current_value_discriminator : List ℕ
adapter_current_value_discriminator = 67 ∷ 200 ∷ 59 ∷ 238 ∷ 163 ∷ 138 ∷ 170 ∷ 179 ∷ []

pub record DepositArgs : Type 0 where
  pub amount : ℕ
  pub extra_data : List ℕ

pub record WithdrawArgs : Type 0 where
  pub amount : ℕ
  pub extra_data : List ℕ

pub data AdapterStatus : Type 0 where
  active paused deprecated : AdapterStatus

unfoldable pub from_u8 : ℕ → Option AdapterStatus
from_u8 value =
    if value == 0
    then some active
    else if value == 1
    then some paused
    else if value == 2
    then some deprecated
    else none

unfoldable pub as_u8 : AdapterStatus → ℕ
as_u8 active = 0
as_u8 paused = 1
as_u8 deprecated = 2

unfoldable pub is_active : AdapterStatus → Bool
is_active active = true
is_active paused = false
is_active deprecated = false

-- `self` is the program that runs: the runtime records it with the data.
unfoldable pub set_return_u64 : Pubkey → ℕ → Action ⊤
set_return_u64 self value = set_return_data self (le_bytes 8 value)

unfoldable pub read_return_u64 : Action ℕ
read_return_u64 w = elim w.return_data [
  | none ↦ err (interface missing_return_data)
  | some (_, bytes) ↦
      (do
        require (leb 8 (length bytes)) (interface invalid_return_data)
        pure (from_le_bytes (take 8 bytes)))
        w
]

-- `account_offset!`: a base and the sizes of the fields in front.
abbrev pub account_offset : ℕ → List ℕ → ℕ
account_offset base [] = base
account_offset base (size ∷ sizes) = account_offset (base + size) sizes
