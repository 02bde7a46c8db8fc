-- ===== src/Adapters/Jupiter/Values.antt =====
-- The value query of programs/jupiter-adapter/src/instructions/adapter_current_value.rs.
use solana_yield_adapter_sta.Prelude.{
  inl, inr, Option-cases, Bool-cases, leb, leb→le, ℕ, ◌≡◌, ◌≤◌, ◌<◌, ◌^◌, arith, length, List, [],
  ◌∷◌, none, some, All,
}
use solana_yield_adapter_sta.Prelude.Bytes.{IsByte, from_le_bytes}
use solana_yield_adapter_sta.Types.{Event, panic, anchor, account_borrow_failed, interface}
use solana_yield_adapter_sta.Types.Interface.{account_data_too_short}
use solana_yield_adapter_sta.Types.Jupiter.{valued}
use solana_yield_adapter_sta.Interface.{set_return_u64}
use solana_yield_adapter_sta.Solana.Accounts.{AccountInfo, Pubkey}
use solana_yield_adapter_sta.Solana.Result.{ok, err}
use solana_yield_adapter_sta.Solana.World.{World}
use solana_yield_adapter_sta.Adapters.Answer.{
  respond, observed, HasData, answer, word, le_bytes-word, read_u64_le-word, read_u64_le_short,
}
use solana_yield_adapter_sta.Adapters.Jupiter.{program_id, id}
use solana_yield_adapter_sta.Adapters.Jupiter.CurrentValue.{
  AdapterCurrentValue, adapter_current_value,
}

module _ (ctx : AdapterCurrentValue) (remaining : List AccountInfo) (w : World) where
  -- Every branch of the Jupiter value query: no remaining account is a panic, data that is borrowed
  -- is AccountBorrowFailed, data shorter than 160 bytes is AccountDataTooShort; and of longer data
  -- the eight bytes at offset 152 become the return data as they stand, with their value in the
  -- event.
  pub jupiter_current_value_cases :
      (remaining ≡ [] → adapter_current_value ctx remaining w ≡ err panic)
      × ((account : AccountInfo) (rest : List AccountInfo)
          → remaining ≡ account ∷ rest
          → (account.borrow ≡ none
              → adapter_current_value ctx remaining w ≡ err (anchor account_borrow_failed))
            × ((bytes : List ℕ)
                → account.borrow ≡ some bytes
                → length bytes < 2 ^ 64
                → (length bytes < 160
                    → adapter_current_value ctx remaining w
                      ≡ err (interface account_data_too_short))
                  × (All IsByte bytes
                      → 160 ≤ length bytes
                      → adapter_current_value ctx remaining w
                        ≡ ok (
                          tt,
                          answer id
                              (word bytes 152)
                              (Event.jupiter (
                                valued (record {
                                  authority = ctx.authority.key;
                                  program_id = program_id;
                                  current_value = from_le_bytes (word bytes 152);
                                })))
                              w,
                        ))))
  unfolding adapter_current_value set_return_u64
  jupiter_current_value_cases = (
    λ h. ground arith,
    λ account rest h. (
      λ k. ground arith,
      λ bytes k size. (
        λ l. ground (arith, read_u64_le_short bytes 152 size (omega arith) l),
        λ b l.
            ground
              (arith, read_u64_le-word bytes 152 size l, le_bytes-word bytes 152 b (omega arith)),
      ),
    ),
  )

-- The event for a value.
abbrev pub reported : Pubkey → ℕ → Event
reported caller value =
    Event.jupiter
      (valued (record { authority = caller; program_id = program_id; current_value = value }))

module _ (ctx : AdapterCurrentValue) (w : World) where
  from_data :
      (account : AccountInfo) (rest : List AccountInfo) (bytes : List ℕ)
      → account.borrow ≡ some bytes
      → length bytes < 2 ^ 64
      → All IsByte bytes
      → adapter_current_value ctx (account ∷ rest) w
        ≡ respond id (reported ctx.authority.key) (observed 152 8 (account ∷ rest)) w
  unfolding adapter_current_value set_return_u64
  from_data account rest bytes e size whole = elim (Bool-cases (leb 160 (length bytes))) [
    | inl t ↦
        let long : 160 ≤ length bytes = leb→le _ _ t in
        ground (arith, read_u64_le-word bytes 152 size (omega arith))
    | inr f ↦
        let short : length bytes < 160 = ground arith in
        ground (arith, read_u64_le_short bytes 152 size (omega arith) (omega arith))
  ]

  -- Every outcome of the Jupiter value query, where the first remaining account's data is a byte
  -- sequence with a length below 2^64: a panic without an account, AccountBorrowFailed for data
  -- that is borrowed, AccountDataTooShort below 160 bytes, and otherwise the number that the
  -- eight bytes at offset 152 spell becomes the return data and the event's value.
  pub jupiter_current_value_outcome :
      (remaining : List AccountInfo)
      → HasData remaining
      → adapter_current_value ctx remaining w
        ≡ respond id (reported ctx.authority.key) (observed 152 8 remaining) w
  unfolding adapter_current_value
  jupiter_current_value_outcome [] h = ground arith
  jupiter_current_value_outcome (account ∷ rest) h = elim (Option-cases account.borrow) [
    | inl e ↦ ground arith
    | inr (bytes, e) ↦ let (size, whole) = rw e at h in from_data account rest bytes e size whole
  ]
