-- ===== src/Adapters/Maple/Values.antt =====
-- The value query of programs/maple-adapter/src/instructions/adapter_current_value.rs.
use solana_yield_adapter_sta.Prelude.{inl, inr, ℕ, ◌≡◌, arith, List, [], ◌∷◌}
use solana_yield_adapter_sta.Types.{Error, Event}
use solana_yield_adapter_sta.Types.Maple.{valued, invalid_account}
use solana_yield_adapter_sta.Interface.{set_return_u64}
use solana_yield_adapter_sta.Solana.Accounts.{AccountInfo, Pubkey}
use solana_yield_adapter_sta.Solana.Result.{Result-cases, Result, err}
use solana_yield_adapter_sta.Solana.World.{World}
use solana_yield_adapter_sta.Adapters.Answer.{respond}
use solana_yield_adapter_sta.Adapters.Maple.{program_id, id}
use solana_yield_adapter_sta.Adapters.Maple.CurrentValue.{
  AdapterCurrentValue, adapter_current_value,
}

-- The event for a value.
abbrev pub reported : Pubkey → ℕ → Event
reported caller value =
    Event.maple
      (valued (record { authority = caller; program_id = program_id; current_value = value }))

abbrev pub balance : (AccountInfo → Result ℕ) → List AccountInfo → Result ℕ
balance token_amount [] = err (Error.maple invalid_account)
balance token_amount (account ∷ rest) = token_amount account

-- Every outcome of the Maple value query: InvalidAccount without an account, the error of loading
-- the first account as a token account, and otherwise its amount becomes the return data and the
-- event's value.
pub maple_current_value_outcome :
    (token_amount : AccountInfo → Result ℕ) (ctx : AdapterCurrentValue)
    (remaining : List AccountInfo) (w : World)
    → adapter_current_value token_amount ctx remaining w
      ≡ respond id (reported ctx.authority.key) (balance token_amount remaining) w
unfolding adapter_current_value set_return_u64
maple_current_value_outcome token_amount ctx [] w = ground arith
maple_current_value_outcome token_amount ctx (account ∷ rest) w =
    elim (Result-cases (token_amount account)) [
      | inl (v, f) ↦ ground arith
      | inr (e, f) ↦ ground arith
    ]
