-- ===== src/Adapters/Drift/Withdraw.antt =====
-- programs/drift-adapter/src/instructions/adapter_withdraw.rs
use solana_yield_adapter_sta.Prelude.{
  ℕ, ⊤, List, [], ◌∷◌, ◌++◌, map, not, ◌==◌, if◌then◌else◌, length,
}
use solana_yield_adapter_sta.Prelude.Bytes.{le_bytes}
use solana_yield_adapter_sta.Types.{anchor, account_not_enough_keys, Event, Error}
use solana_yield_adapter_sta.Types.Drift.{
  withdrawn, invalid_account, invalid_args, unknown_function,
}
use solana_yield_adapter_sta.Solana.Accounts.{AccountInfo}
use solana_yield_adapter_sta.Solana.World.{
  Action, Invoke, ◌>>=◌, ◌>>◌, pure, fail, require, emit, index, slice, slice_from,
}
use solana_yield_adapter_sta.Solana.Anchor.{signer, mutable, to_meta}
use solana_yield_adapter_sta.Adapters.Drift.{
  program_id, withdraw_bytes, request_remove_insurance_fund_stake_bytes,
  remove_insurance_fund_stake_bytes,
}

pub record AdapterWithdrawArgs : Type 0 where
  pub amount : ℕ
  pub extra_data : List ℕ

pub record AdapterWithdraw : Type 0 where
  pub authority : AccountInfo

-- The accounts of the instruction, and the remaining ones.
unfoldable pub try_accounts : List AccountInfo → Action (AdapterWithdraw × List AccountInfo)
try_accounts (authority ∷ remaining) = do
  signer authority
  mutable authority
  pure (record { authority = authority }, remaining)
try_accounts [] = fail (anchor account_not_enough_keys)

unfoldable pub validate : AdapterWithdraw → AdapterWithdrawArgs → Action ⊤
validate ctx args = do
  require (not (ctx.authority.key == 0)) (Error.drift invalid_account)
  require (not (length args.extra_data == 0)) (Error.drift invalid_args)

module _ (invoke : Invoke) where
  unfoldable pub build_and_invoke : AdapterWithdraw → List AccountInfo → List ℕ → ℕ → Action ⊤
  build_and_invoke ctx remaining bytes amount = do
    invoke (record { program_id = program_id; accounts = map to_meta remaining; bytes = bytes })
        remaining
    emit (
        Event.drift (
          withdrawn
            (record { authority = ctx.authority.key; program_id = program_id; amount = amount })))

  unfoldable pub withdraw : AdapterWithdraw → List AccountInfo → AdapterWithdrawArgs → Action ⊤
  unfolding build_and_invoke
  withdraw ctx remaining args = do
    market_index ← slice args.extra_data 1 3
    rest ← slice_from args.extra_data 3
    let bytes = withdraw_bytes ++ (market_index ++ (le_bytes 8 args.amount ++ rest))
    build_and_invoke ctx remaining bytes args.amount

  unfoldable pub request_remove_insurance_fund_stake :
      AdapterWithdraw → List AccountInfo → AdapterWithdrawArgs → Action ⊤
  unfolding build_and_invoke
  request_remove_insurance_fund_stake ctx remaining args = do
    market_index ← slice args.extra_data 1 3
    let bytes =
        request_remove_insurance_fund_stake_bytes ++ (market_index ++ le_bytes 8 args.amount)
    build_and_invoke ctx remaining bytes args.amount

  unfoldable pub remove_insurance_fund_stake :
      AdapterWithdraw → List AccountInfo → AdapterWithdrawArgs → Action ⊤
  unfolding build_and_invoke
  remove_insurance_fund_stake ctx remaining args = do
    market_index ← slice args.extra_data 1 3
    build_and_invoke ctx remaining (remove_insurance_fund_stake_bytes ++ market_index) 0

  unfoldable pub adapter_withdraw :
      AdapterWithdraw → List AccountInfo → AdapterWithdrawArgs → Action ⊤
  unfolding validate withdraw request_remove_insurance_fund_stake remove_insurance_fund_stake
  adapter_withdraw ctx remaining args = do
    validate ctx args
    selector ← index args.extra_data 0
    if selector == 0
        then withdraw ctx remaining args
        else if selector == 1
        then request_remove_insurance_fund_stake ctx remaining args
        else if selector == 2
        then remove_insurance_fund_stake ctx remaining args
        else fail (Error.drift unknown_function)

  -- The instruction as the program exposes it.
  unfoldable pub process : List AccountInfo → AdapterWithdrawArgs → Action ⊤
  unfolding try_accounts adapter_withdraw
  process accounts args = do
    (ctx, remaining) ← try_accounts accounts
    adapter_withdraw ctx remaining args
