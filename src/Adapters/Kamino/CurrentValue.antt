-- ===== src/Adapters/Kamino/CurrentValue.antt =====
-- programs/kamino-adapter/src/instructions/adapter_current_value.rs
use solana_yield_adapter_sta.Prelude.{ℕ, ⊤, List, [], ◌∷◌, Option}
use solana_yield_adapter_sta.Types.{
  anchor, account_not_enough_keys, account_borrow_failed, panic, Event,
}
use solana_yield_adapter_sta.Types.Kamino.{valued}
use solana_yield_adapter_sta.Interface.{set_return_u64}
use solana_yield_adapter_sta.Solana.Accounts.{AccountInfo}
use solana_yield_adapter_sta.Solana.Result.{ok_or}
use solana_yield_adapter_sta.Solana.World.{
  Action, ◌>>=◌, ◌>>◌, pure, fail, lift, emit, index, slice_from,
}
use solana_yield_adapter_sta.Solana.Anchor.{signer}
use solana_yield_adapter_sta.Adapters.Kamino.{program_id, id}

pub record AdapterCurrentValue : Type 0 where
  pub authority : AccountInfo

-- The accounts of the instruction, and the remaining ones.
unfoldable pub try_accounts : List AccountInfo → Action (AdapterCurrentValue × List AccountInfo)
try_accounts (authority ∷ remaining) = do
  signer authority
  pure (record { authority = authority }, remaining)
try_accounts [] = fail (anchor account_not_enough_keys)

-- `available_liquidity` reads a `Reserve` off its bytes: `bytemuck::from_bytes` and the method of
-- klend-interface. It is `none` where `from_bytes` panics.
module _ (available_liquidity : List ℕ → Option ℕ) where
  unfoldable pub adapter_current_value : AdapterCurrentValue → List AccountInfo → Action ⊤
  adapter_current_value ctx remaining = do
    account ← index remaining 0
    bytes ← lift (ok_or account.borrow (anchor account_borrow_failed))
    reserve ← slice_from bytes 8
    current_value ← lift (ok_or (available_liquidity reserve) panic)
    set_return_u64 id current_value
    emit (
        Event.kamino (
          valued (record {
            authority = ctx.authority.key;
            program_id = program_id;
            current_value = current_value;
          })))

  -- The instruction as the program exposes it.
  unfoldable pub process : List AccountInfo → Action ⊤
  unfolding try_accounts adapter_current_value
  process accounts = do
    (ctx, remaining) ← try_accounts accounts
    adapter_current_value ctx remaining
