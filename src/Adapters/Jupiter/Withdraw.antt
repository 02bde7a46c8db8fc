-- ===== src/Adapters/Jupiter/Withdraw.antt =====
-- programs/jupiter-adapter/src/instructions/adapter_withdraw.rs
use solana_yield_adapter_sta.Prelude.{
  ℕ, ⊤, List, [], ◌∷◌, ◌++◌, map, not, ◌==◌, if◌then◌else◌, length,
}
use solana_yield_adapter_sta.Prelude.Bytes.{le_bytes}
use solana_yield_adapter_sta.Types.{anchor, account_not_enough_keys, Event, Error}
use solana_yield_adapter_sta.Types.Jupiter.{
  withdrawn, invalid_account, invalid_args, unknown_function,
}
use solana_yield_adapter_sta.Solana.Accounts.{AccountInfo}
use solana_yield_adapter_sta.Solana.World.{
  Action, Invoke, ◌>>=◌, ◌>>◌, pure, fail, require, emit, index, slice_from,
}
use solana_yield_adapter_sta.Solana.Anchor.{signer, mutable, to_meta}
use solana_yield_adapter_sta.Adapters.Jupiter.{
  program_id, remove_liquidity_bytes, withdraw_collateral_for_borrows_discriminator,
}

pub record AdapterWithdrawArgs : Type 0 where
  pub amount : ℕ
  pub extra_data : List ℕ

pub record AdapterWithdraw : Type 0 where
  pub authority : AccountInfo

-- The accounts of the instruction, and the remaining ones.
unfoldable pub try_accounts : List AccountInfo → Action (AdapterWithdraw × List AccountInfo)
try_accounts (authority ∷ remaining) = do
  signer authority
  mutable authority
  pure (record { authority = authority }, remaining)
try_accounts [] = fail (anchor account_not_enough_keys)

unfoldable pub validate : AdapterWithdraw → List AccountInfo → AdapterWithdrawArgs → Action ⊤
validate ctx remaining args = do
  require (not (ctx.authority.key == 0)) (Error.jupiter invalid_account)
  require (length remaining == 14) (Error.jupiter invalid_account)
  require (not (length args.extra_data == 0)) (Error.jupiter invalid_args)

module _ (invoke : Invoke) where
  unfoldable pub build_and_invoke :
      AdapterWithdraw → List AccountInfo → List ℕ → ℕ → List ℕ → Action ⊤
  build_and_invoke ctx remaining discriminator amount extra_data = do
    let bytes = discriminator ++ (le_bytes 8 amount ++ extra_data)
    invoke (record { program_id = program_id; accounts = map to_meta remaining; bytes = bytes })
        remaining
    emit (
        Event.jupiter (
          withdrawn
            (record { authority = ctx.authority.key; program_id = program_id; amount = amount })))

  unfoldable pub withdraw_collateral_for_borrows :
      AdapterWithdraw → List AccountInfo → AdapterWithdrawArgs → Action ⊤
  unfolding build_and_invoke
  withdraw_collateral_for_borrows ctx remaining args =
      build_and_invoke ctx remaining withdraw_collateral_for_borrows_discriminator args.amount []

  unfoldable pub remove_liquidity :
      AdapterWithdraw → List AccountInfo → AdapterWithdrawArgs → Action ⊤
  unfolding build_and_invoke
  remove_liquidity ctx remaining args = do
    extra_data ← slice_from args.extra_data 1
    build_and_invoke ctx remaining remove_liquidity_bytes args.amount extra_data

  unfoldable pub adapter_withdraw :
      AdapterWithdraw → List AccountInfo → AdapterWithdrawArgs → Action ⊤
  unfolding validate withdraw_collateral_for_borrows remove_liquidity
  adapter_withdraw ctx remaining args = do
    validate ctx remaining args
    selector ← index args.extra_data 0
    if selector == 0
        then withdraw_collateral_for_borrows ctx remaining args
        else if selector == 1
        then remove_liquidity ctx remaining args
        else fail (Error.jupiter unknown_function)

  -- The instruction as the program exposes it.
  unfoldable pub process : List AccountInfo → AdapterWithdrawArgs → Action ⊤
  unfolding try_accounts adapter_withdraw
  process accounts args = do
    (ctx, remaining) ← try_accounts accounts
    adapter_withdraw ctx remaining args
