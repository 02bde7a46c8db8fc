-- ===== src/Adapters/Kamino/Values.antt =====
-- The value query of programs/kamino-adapter/src/instructions/adapter_current_value.rs.
use solana_yield_adapter_sta.Prelude.{
  inl, inr, Option-cases, leb, if◌then◌else◌, ℕ, ◌≡◌, arith, length, drop, List, [], ◌∷◌, Option,
  none, some,
}
use solana_yield_adapter_sta.Types.{Event, panic, anchor, account_borrow_failed}
use solana_yield_adapter_sta.Types.Kamino.{valued}
use solana_yield_adapter_sta.Interface.{set_return_u64}
use solana_yield_adapter_sta.Solana.Accounts.{AccountInfo, Pubkey}
use solana_yield_adapter_sta.Solana.Result.{Result, ok, err}
use solana_yield_adapter_sta.Solana.World.{World}
use solana_yield_adapter_sta.Adapters.Answer.{respond}
use solana_yield_adapter_sta.Adapters.Kamino.{program_id, id}
use solana_yield_adapter_sta.Adapters.Kamino.CurrentValue.{
  AdapterCurrentValue, adapter_current_value,
}

-- The event for a value.
abbrev pub reported : Pubkey → ℕ → Event
reported caller value =
    Event.kamino
      (valued (record { authority = caller; program_id = program_id; current_value = value }))

-- The liquidity of the reserve behind the eight-byte discriminator.
abbrev pub liquidity : (List ℕ → Option ℕ) → List ℕ → Result ℕ
liquidity available_liquidity bytes =
    if leb 8 (length bytes)
    then elim (available_liquidity (drop 8 bytes)) [ none ↦ err panic | some v ↦ ok v ]
    else err panic

abbrev pub reserve : (List ℕ → Option ℕ) → List AccountInfo → Result ℕ
reserve available_liquidity [] = err panic
reserve available_liquidity (account ∷ rest) = elim account.borrow [
  | none ↦ err (anchor account_borrow_failed)
  | some bytes ↦ liquidity available_liquidity bytes
]

-- Every outcome of the Kamino value query: a panic without an account, with less than the
-- discriminator's eight bytes of data or where the bytes behind them are no reserve,
-- AccountBorrowFailed for data that is borrowed, and otherwise the reserve's liquidity becomes the
-- return data and the event's value.
pub kamino_current_value_outcome :
    (available_liquidity : List ℕ → Option ℕ) (ctx : AdapterCurrentValue)
    (remaining : List AccountInfo) (w : World)
    → adapter_current_value available_liquidity ctx remaining w
      ≡ respond id (reported ctx.authority.key) (reserve available_liquidity remaining) w
unfolding adapter_current_value set_return_u64
kamino_current_value_outcome available_liquidity ctx [] w = ground arith
kamino_current_value_outcome available_liquidity ctx (account ∷ rest) w =
    elim (Option-cases account.borrow) [
      | inl e ↦ ground arith
      | inr (bytes, e) ↦ elim (Option-cases (available_liquidity (drop 8 bytes))) [
        | inl f ↦ ground arith
        | inr (v, f) ↦ ground arith
      ]
    ]
