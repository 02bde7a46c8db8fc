-- ===== src/Adapters/Drift/Deposit.antt =====
-- programs/drift-adapter/src/instructions/adapter_deposit.rs
use solana_yield_adapter_sta.Prelude.{
  ℕ, ⊤, List, [], ◌∷◌, ◌++◌, map, not, ◌==◌, if◌then◌else◌, length,
}
use solana_yield_adapter_sta.Prelude.Bytes.{le_bytes}
use solana_yield_adapter_sta.Types.{anchor, account_not_enough_keys, Event, Error}
use solana_yield_adapter_sta.Types.Drift.{
  deposited, invalid_account, invalid_args, unknown_function,
}
use solana_yield_adapter_sta.Solana.Accounts.{AccountInfo}
use solana_yield_adapter_sta.Solana.World.{
  Action, Invoke, ◌>>=◌, ◌>>◌, pure, fail, require, emit, index, slice, slice_from,
}
use solana_yield_adapter_sta.Solana.Anchor.{signer, mutable, to_meta}
use solana_yield_adapter_sta.Adapters.Drift.{
  program_id, deposit_bytes, add_insurance_fund_stake_bytes, initialize_insurance_fund_stake_bytes,
}

pub record AdapterDepositArgs : Type 0 where
  pub amount : ℕ
  pub extra_data : List ℕ

pub record AdapterDeposit : Type 0 where
  pub authority : AccountInfo

-- The accounts of the instruction, and the remaining ones.
unfoldable pub try_accounts : List AccountInfo → Action (AdapterDeposit × List AccountInfo)
try_accounts (authority ∷ remaining) = do
  signer authority
  mutable authority
  pure (record { authority = authority }, remaining)
try_accounts [] = fail (anchor account_not_enough_keys)

unfoldable pub validate : AdapterDeposit → AdapterDepositArgs → Action ⊤
validate ctx args = do
  require (not (ctx.authority.key == 0)) (Error.drift invalid_account)
  require (not (length args.extra_data == 0)) (Error.drift invalid_args)

module _ (invoke : Invoke) where
  unfoldable pub build_and_invoke : AdapterDeposit → List AccountInfo → List ℕ → ℕ → Action ⊤
  build_and_invoke ctx remaining bytes amount = do
    invoke (record { program_id = program_id; accounts = map to_meta remaining; bytes = bytes })
        remaining
    emit (
        Event.drift (
          deposited
            (record { authority = ctx.authority.key; program_id = program_id; amount = amount })))

  unfoldable pub deposit : AdapterDeposit → List AccountInfo → AdapterDepositArgs → Action ⊤
  unfolding build_and_invoke
  deposit ctx remaining args = do
    market_index ← slice args.extra_data 1 3
    rest ← slice_from args.extra_data 3
    let bytes = deposit_bytes ++ (market_index ++ (le_bytes 8 args.amount ++ rest))
    build_and_invoke ctx remaining bytes args.amount

  unfoldable pub add_insurance_fund_stake :
      AdapterDeposit → List AccountInfo → AdapterDepositArgs → Action ⊤
  unfolding build_and_invoke
  add_insurance_fund_stake ctx remaining args = do
    rest ← slice_from args.extra_data 1
    build_and_invoke ctx remaining
        (add_insurance_fund_stake_bytes ++ (rest ++ le_bytes 8 args.amount)) args.amount

  unfoldable pub initialize_insurance_fund_stake :
      AdapterDeposit → List AccountInfo → AdapterDepositArgs → Action ⊤
  unfolding build_and_invoke
  initialize_insurance_fund_stake ctx remaining args = do
    rest ← slice_from args.extra_data 1
    build_and_invoke ctx remaining (initialize_insurance_fund_stake_bytes ++ rest) 0

  unfoldable pub adapter_deposit : AdapterDeposit → List AccountInfo → AdapterDepositArgs → Action ⊤
  unfolding validate deposit add_insurance_fund_stake initialize_insurance_fund_stake
  adapter_deposit ctx remaining args = do
    validate ctx args
    selector ← index args.extra_data 0
    if selector == 0
        then deposit ctx remaining args
        else if selector == 1
        then add_insurance_fund_stake ctx remaining args
        else if selector == 2
        then initialize_insurance_fund_stake ctx remaining args
        else fail (Error.drift unknown_function)

  -- The instruction as the program exposes it.
  unfoldable pub process : List AccountInfo → AdapterDepositArgs → Action ⊤
  unfolding try_accounts adapter_deposit
  process accounts args = do
    (ctx, remaining) ← try_accounts accounts
    adapter_deposit ctx remaining args
