-- ===== src/Interface/Layout.antt =====
-- crates/yield-adapter-interface/src/layout.rs: bounds-checked reads of raw account data. `usize`
-- has 64 bits on the target, so a sum that reaches 2 ^ 64 is `checked_add`'s `None`.
use solana_yield_adapter_sta.Prelude.{
  ℕ, ◌+◌, ◌-◌, ◌^◌, List, Option, none, some, leb, ltb, if◌then◌else◌, length, take, drop,
}
use solana_yield_adapter_sta.Prelude.Int.{ℤ}
use solana_yield_adapter_sta.Prelude.Bytes.{from_le_bytes, signed}
use solana_yield_adapter_sta.Types.{interface}
use solana_yield_adapter_sta.Types.Interface.{
  account_data_too_short, invalid_account_data, offset_overflow,
}
use solana_yield_adapter_sta.Solana.Accounts.{Pubkey}
use solana_yield_adapter_sta.Solana.Result.{Result, ok, ◌>>=◌, ◌>>◌, require, ok_or}

-- `usize::checked_add`
abbrev pub checked_add : ℕ → ℕ → Option ℕ
checked_add a b = if ltb (a + b) (2 ^ 64) then some (a + b) else none

unfoldable pub read_bytes : List ℕ → ℕ → ℕ → Result (List ℕ)
read_bytes bytes offset len = do
  end ← ok_or (checked_add offset len) (interface offset_overflow)
  require (leb end (length bytes)) (interface account_data_too_short)
  ok (take (end - offset) (drop offset bytes))

unfoldable pub read_u64_le : List ℕ → ℕ → Result ℕ
read_u64_le bytes offset = do ok (from_le_bytes (← read_bytes bytes offset 8))

unfoldable pub read_u128_le : List ℕ → ℕ → Result ℕ
read_u128_le bytes offset = do ok (from_le_bytes (← read_bytes bytes offset 16))

unfoldable pub read_i128_le : List ℕ → ℕ → Result ℤ
read_i128_le bytes offset = do ok (signed 128 (from_le_bytes (← read_bytes bytes offset 16)))

-- `try_into` refuses a slice that is not 32 bytes long; a key is the number that its bytes spell.
unfoldable pub read_pubkey : List ℕ → ℕ → Result Pubkey
read_pubkey bytes offset = do
  array ← read_bytes bytes offset 32
  require (leb 32 (length array)) (interface invalid_account_data)
  require (leb (length array) 32) (interface invalid_account_data)
  ok (from_le_bytes array)
