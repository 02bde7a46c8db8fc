-- ===== src/Adapters/Maple/CurrentValue.antt =====
-- programs/maple-adapter/src/instructions/adapter_current_value.rs
use solana_yield_adapter_sta.Prelude.{ℕ, ⊤, List, [], ◌∷◌, not, ◌==◌, length}
use solana_yield_adapter_sta.Types.{anchor, account_not_enough_keys, Event, Error}
use solana_yield_adapter_sta.Types.Maple.{valued, invalid_account}
use solana_yield_adapter_sta.Interface.{set_return_u64}
use solana_yield_adapter_sta.Solana.Accounts.{AccountInfo}
use solana_yield_adapter_sta.Solana.Result.{Result}
use solana_yield_adapter_sta.Solana.World.{
  Action, ◌>>=◌, ◌>>◌, pure, fail, lift, require, emit, index,
}
use solana_yield_adapter_sta.Solana.Anchor.{signer, mutable}
use solana_yield_adapter_sta.Adapters.Maple.{program_id, id}

pub record AdapterCurrentValue : Type 0 where
  pub authority : AccountInfo

-- The accounts of the instruction, and the remaining ones.
unfoldable pub try_accounts : List AccountInfo → Action (AdapterCurrentValue × List AccountInfo)
try_accounts (authority ∷ remaining) = do
  signer authority
  mutable authority
  pure (record { authority = authority }, remaining)
try_accounts [] = fail (anchor account_not_enough_keys)

unfoldable pub validate : AdapterCurrentValue → List AccountInfo → Action ⊤
validate ctx remaining = require (not (length remaining == 0)) (Error.maple invalid_account)

-- `token_amount` is `Account::<TokenAccount>::try_from` of anchor-spl, and the field `amount`.
module _ (token_amount : AccountInfo → Result ℕ) where
  unfoldable pub adapter_current_value : AdapterCurrentValue → List AccountInfo → Action ⊤
  unfolding validate
  adapter_current_value ctx remaining = do
    validate ctx remaining
    account ← index remaining 0
    current_value ← lift (token_amount account)
    set_return_u64 id current_value
    emit (
        Event.maple (
          valued (record {
            authority = ctx.authority.key;
            program_id = program_id;
            current_value = current_value;
          })))

  -- The instruction as the program exposes it.
  unfoldable pub process : List AccountInfo → Action ⊤
  unfolding try_accounts adapter_current_value
  process accounts = do
    (ctx, remaining) ← try_accounts accounts
    adapter_current_value ctx remaining
