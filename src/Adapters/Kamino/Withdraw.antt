-- ===== src/Adapters/Kamino/Withdraw.antt =====
-- programs/kamino-adapter/src/instructions/adapter_withdraw.rs
use solana_yield_adapter_sta.Prelude.{
  ℕ, ⊤, List, [], ◌∷◌, ◌++◌, map, not, ◌==◌, if◌then◌else◌, length,
}
use solana_yield_adapter_sta.Prelude.Bytes.{le_bytes}
use solana_yield_adapter_sta.Types.{anchor, account_not_enough_keys, Event, Error}
use solana_yield_adapter_sta.Types.Kamino.{
  withdrawn, invalid_account, invalid_args, unknown_function,
}
use solana_yield_adapter_sta.Solana.Accounts.{AccountInfo}
use solana_yield_adapter_sta.Solana.World.{
  Action, Invoke, ◌>>=◌, ◌>>◌, pure, fail, require, emit, index, slice_from,
}
use solana_yield_adapter_sta.Solana.Anchor.{signer, mutable, to_meta}
use solana_yield_adapter_sta.Adapters.Kamino.{
  program_id, deposit_and_withdraw_bytes, redeem_reserve_collateral_bytes,
  withdraw_obligation_collateral_and_redeem_reserve_collateral_v2_bytes,
}

pub record AdapterWithdrawArgs : Type 0 where
  pub amount : ℕ
  pub extra_data : List ℕ

pub record AdapterWithdraw : Type 0 where
  pub authority : AccountInfo

-- The accounts of the instruction, and the remaining ones.
unfoldable pub try_accounts : List AccountInfo → Action (AdapterWithdraw × List AccountInfo)
try_accounts (authority ∷ remaining) = do
  signer authority
  mutable authority
  pure (record { authority = authority }, remaining)
try_accounts [] = fail (anchor account_not_enough_keys)

unfoldable pub validate : AdapterWithdraw → AdapterWithdrawArgs → Action ⊤
validate ctx args = do
  require (not (ctx.authority.key == 0)) (Error.kamino invalid_account)
  require (not (length args.extra_data == 0)) (Error.kamino invalid_args)

module _ (invoke : Invoke) where
  unfoldable pub build_and_invoke :
      AdapterWithdraw → List AccountInfo → List ℕ → ℕ → List ℕ → Action ⊤
  build_and_invoke ctx remaining discriminator amount extra_data = do
    let bytes = discriminator ++ (le_bytes 8 amount ++ extra_data)
    invoke (record { program_id = program_id; accounts = map to_meta remaining; bytes = bytes })
        remaining
    emit (
        Event.kamino (
          withdrawn
            (record { authority = ctx.authority.key; program_id = program_id; amount = amount })))

  unfoldable pub withdraw_obligation_collateral_and_redeem_reserve_collateral_v2 :
      AdapterWithdraw → List AccountInfo → AdapterWithdrawArgs → Action ⊤
  unfolding build_and_invoke
  withdraw_obligation_collateral_and_redeem_reserve_collateral_v2 ctx remaining args =
      build_and_invoke ctx remaining
        withdraw_obligation_collateral_and_redeem_reserve_collateral_v2_bytes args.amount []

  unfoldable pub redeem_reserve_collateral :
      AdapterWithdraw → List AccountInfo → AdapterWithdrawArgs → Action ⊤
  unfolding build_and_invoke
  redeem_reserve_collateral ctx remaining args = do
    extra_data ← slice_from args.extra_data 1
    build_and_invoke ctx remaining redeem_reserve_collateral_bytes args.amount extra_data

  unfoldable pub deposit_and_withdraw :
      AdapterWithdraw → List AccountInfo → AdapterWithdrawArgs → Action ⊤
  unfolding build_and_invoke
  deposit_and_withdraw ctx remaining args = do
    extra_data ← slice_from args.extra_data 1
    build_and_invoke ctx remaining deposit_and_withdraw_bytes args.amount extra_data

  unfoldable pub adapter_withdraw :
      AdapterWithdraw → List AccountInfo → AdapterWithdrawArgs → Action ⊤
  unfolding validate withdraw_obligation_collateral_and_redeem_reserve_collateral_v2
      redeem_reserve_collateral deposit_and_withdraw
  adapter_withdraw ctx remaining args = do
    validate ctx args
    selector ← index args.extra_data 0
    if selector == 0
        then withdraw_obligation_collateral_and_redeem_reserve_collateral_v2 ctx remaining args
        else if selector == 1
        then redeem_reserve_collateral ctx remaining args
        else if selector == 2
        then deposit_and_withdraw ctx remaining args
        else fail (Error.kamino unknown_function)

  -- The instruction as the program exposes it.
  unfoldable pub process : List AccountInfo → AdapterWithdrawArgs → Action ⊤
  unfolding try_accounts adapter_withdraw
  process accounts args = do
    (ctx, remaining) ← try_accounts accounts
    adapter_withdraw ctx remaining args
