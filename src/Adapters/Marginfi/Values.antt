-- ===== src/Adapters/Marginfi/Values.antt =====
-- The value query of programs/marginfi-adapter/src/instructions/adapter_current_value.rs.
use solana_yield_adapter_sta.Prelude.{
  inl, inr, Option-cases, Bool-cases, leb, leb→le, ℕ, ◌≡◌, ◌≤◌, ◌<◌, ◌^◌, arith, length, List, [],
  ◌∷◌, some, All,
}
use solana_yield_adapter_sta.Prelude.Bytes.{IsByte}
use solana_yield_adapter_sta.Types.{Event}
use solana_yield_adapter_sta.Types.Marginfi.{valued}
use solana_yield_adapter_sta.Interface.{set_return_u64}
use solana_yield_adapter_sta.Solana.Accounts.{AccountInfo, Pubkey}
use solana_yield_adapter_sta.Solana.World.{World}
use solana_yield_adapter_sta.Adapters.Answer.{
  respond, observed, HasData, read_u128_le-take, read_u128_le_short, truncated-word,
}
use solana_yield_adapter_sta.Adapters.Marginfi.{program_id, id}
use solana_yield_adapter_sta.Adapters.Marginfi.CurrentValue.{
  AdapterCurrentValue, adapter_current_value,
}

-- The event for a value.
abbrev pub reported : Pubkey → ℕ → Event
reported caller value =
    Event.marginfi
      (valued (record { authority = caller; program_id = program_id; current_value = value }))

module _ (ctx : AdapterCurrentValue) (w : World) where
  from_data :
      (account : AccountInfo) (rest : List AccountInfo) (bytes : List ℕ)
      → account.borrow ≡ some bytes
      → length bytes < 2 ^ 64
      → All IsByte bytes
      → adapter_current_value ctx (account ∷ rest) w
        ≡ respond id (reported ctx.authority.key) (observed 40 16 (account ∷ rest)) w
  unfolding adapter_current_value set_return_u64
  from_data account rest bytes e size whole = elim (Bool-cases (leb 56 (length bytes))) [
    | inl t ↦
        let long : 56 ≤ length bytes = leb→le _ _ t in
        ground (
          arith,
          read_u128_le-take bytes 40 size (omega arith),
          truncated-word bytes 40 whole (omega arith),
        )
    | inr f ↦
        let short : length bytes < 56 = ground arith in
        ground (arith, read_u128_le_short bytes 40 size (omega arith) (omega arith))
  ]

  -- Every outcome of the MarginFi value query, where the first remaining account's data is a byte
  -- sequence with a length below 2^64: a panic without an account, AccountBorrowFailed for data
  -- that is borrowed, AccountDataTooShort below 56 bytes, and otherwise the number that the
  -- eight bytes at offset 40 spell becomes the return data and the event's value.
  pub marginfi_current_value_outcome :
      (remaining : List AccountInfo)
      → HasData remaining
      → adapter_current_value ctx remaining w
        ≡ respond id (reported ctx.authority.key) (observed 40 16 remaining) w
  unfolding adapter_current_value
  marginfi_current_value_outcome [] h = ground arith
  marginfi_current_value_outcome (account ∷ rest) h = elim (Option-cases account.borrow) [
    | inl e ↦ ground arith
    | inr (bytes, e) ↦ let (size, whole) = rw e at h in from_data account rest bytes e size whole
  ]
