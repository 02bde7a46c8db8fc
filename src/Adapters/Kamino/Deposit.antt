-- ===== src/Adapters/Kamino/Deposit.antt =====
-- programs/kamino-adapter/src/instructions/adapter_deposit.rs
use solana_yield_adapter_sta.Prelude.{
  ℕ, ⊤, List, [], ◌∷◌, ◌++◌, map, not, ◌==◌, if◌then◌else◌, length,
}
use solana_yield_adapter_sta.Prelude.Bytes.{le_bytes}
use solana_yield_adapter_sta.Types.{anchor, account_not_enough_keys, Event, Error}
use solana_yield_adapter_sta.Types.Kamino.{
  deposited, invalid_account, invalid_args, unknown_function,
}
use solana_yield_adapter_sta.Solana.Accounts.{AccountInfo}
use solana_yield_adapter_sta.Solana.World.{
  Action, Invoke, ◌>>=◌, ◌>>◌, pure, fail, require, emit, index, slice_from,
}
use solana_yield_adapter_sta.Solana.Anchor.{signer, mutable, to_meta}
use solana_yield_adapter_sta.Adapters.Kamino.{
  program_id, deposit_and_withdraw_bytes, deposit_obligation_collaterla_v2,
  deposit_reserve_liquidity_and_obligation_collateral_v2_discriminator,
  deposit_reserve_liquidity_bytes,
}

pub record AdapterDepositArgs : Type 0 where
  pub amount : ℕ
  pub extra_data : List ℕ

pub record AdapterDeposit : Type 0 where
  pub authority : AccountInfo

-- The accounts of the instruction, and the remaining ones.
unfoldable pub try_accounts : List AccountInfo → Action (AdapterDeposit × List AccountInfo)
try_accounts (authority ∷ remaining) = do
  signer authority
  mutable authority
  pure (record { authority = authority }, remaining)
try_accounts [] = fail (anchor account_not_enough_keys)

unfoldable pub validate : AdapterDeposit → AdapterDepositArgs → Action ⊤
validate ctx args = do
  require (not (ctx.authority.key == 0)) (Error.kamino invalid_account)
  require (not (length args.extra_data == 0)) (Error.kamino invalid_args)

module _ (invoke : Invoke) where
  unfoldable pub build_and_invoke :
      AdapterDeposit → List AccountInfo → List ℕ → ℕ → List ℕ → Action ⊤
  build_and_invoke ctx remaining discriminator amount extra_data = do
    let bytes = discriminator ++ (le_bytes 8 amount ++ extra_data)
    invoke (record { program_id = program_id; accounts = map to_meta remaining; bytes = bytes })
        remaining
    emit (
        Event.kamino (
          deposited
            (record { authority = ctx.authority.key; program_id = program_id; amount = amount })))

  unfoldable pub deposit_reserve_liquidity_and_obligation_collateral_v2 :
      AdapterDeposit → List AccountInfo → AdapterDepositArgs → Action ⊤
  unfolding build_and_invoke
  deposit_reserve_liquidity_and_obligation_collateral_v2 ctx remaining args =
      build_and_invoke ctx remaining
        deposit_reserve_liquidity_and_obligation_collateral_v2_discriminator args.amount []

  unfoldable pub deposit_reserve_liquidity :
      AdapterDeposit → List AccountInfo → AdapterDepositArgs → Action ⊤
  unfolding build_and_invoke
  deposit_reserve_liquidity ctx remaining args =
      build_and_invoke ctx remaining deposit_reserve_liquidity_bytes args.amount []

  unfoldable pub deposit_oblogation_collaterla_v2 :
      AdapterDeposit → List AccountInfo → AdapterDepositArgs → Action ⊤
  unfolding build_and_invoke
  deposit_oblogation_collaterla_v2 ctx remaining args =
      build_and_invoke ctx remaining deposit_obligation_collaterla_v2 args.amount []

  unfoldable pub deposit_and_withdraw :
      AdapterDeposit → List AccountInfo → AdapterDepositArgs → Action ⊤
  unfolding build_and_invoke
  deposit_and_withdraw ctx remaining args = do
    extra_data ← slice_from args.extra_data 1
    build_and_invoke ctx remaining deposit_and_withdraw_bytes args.amount extra_data

  unfoldable pub adapter_deposit : AdapterDeposit → List AccountInfo → AdapterDepositArgs → Action ⊤
  unfolding validate deposit_reserve_liquidity_and_obligation_collateral_v2
      deposit_reserve_liquidity deposit_oblogation_collaterla_v2 deposit_and_withdraw
  adapter_deposit ctx remaining args = do
    validate ctx args
    selector ← index args.extra_data 0
    if selector == 0
        then deposit_reserve_liquidity_and_obligation_collateral_v2 ctx remaining args
        else if selector == 1
        then deposit_reserve_liquidity ctx remaining args
        else if selector == 2
        then deposit_oblogation_collaterla_v2 ctx remaining args
        else if selector == 3
        then deposit_and_withdraw ctx remaining args
        else fail (Error.kamino unknown_function)

  -- The instruction as the program exposes it.
  unfoldable pub process : List AccountInfo → AdapterDepositArgs → Action ⊤
  unfolding try_accounts adapter_deposit
  process accounts args = do
    (ctx, remaining) ← try_accounts accounts
    adapter_deposit ctx remaining args
