-- ===== src/Adapters/Marginfi/Deposit.antt =====
-- programs/marginfi-adapter/src/instructions/adapter_deposit.rs
use solana_yield_adapter_sta.Prelude.{
  ℕ, ⊤, List, [], ◌∷◌, ◌++◌, map, not, ◌==◌, if◌then◌else◌, length,
}
use solana_yield_adapter_sta.Prelude.Bytes.{le_bytes}
use solana_yield_adapter_sta.Types.{anchor, account_not_enough_keys, Event, Error}
use solana_yield_adapter_sta.Types.Marginfi.{
  deposited, invalid_account, invalid_args, unknown_function,
}
use solana_yield_adapter_sta.Solana.Accounts.{AccountInfo}
use solana_yield_adapter_sta.Solana.World.{
  Action, Invoke, ◌>>=◌, ◌>>◌, pure, fail, require, emit, index, slice_from,
}
use solana_yield_adapter_sta.Solana.Anchor.{signer, mutable, to_meta}
use solana_yield_adapter_sta.Adapters.Marginfi.{program_id, lending_account_deposit_discriminator}

pub record AdapterDepositArgs : Type 0 where
  pub amount : ℕ
  pub extra_data : List ℕ

pub record AdapterDeposit : Type 0 where
  pub authority : AccountInfo

-- The accounts of the instruction, and the remaining ones.
unfoldable pub try_accounts : List AccountInfo → Action (AdapterDeposit × List AccountInfo)
try_accounts (authority ∷ remaining) = do
  signer authority
  mutable authority
  pure (record { authority = authority }, remaining)
try_accounts [] = fail (anchor account_not_enough_keys)

unfoldable pub validate : AdapterDeposit → AdapterDepositArgs → Action ⊤
validate ctx args = do
  require (not (ctx.authority.key == 0)) (Error.marginfi invalid_account)
  require (not (length args.extra_data == 0)) (Error.marginfi invalid_args)

module _ (invoke : Invoke) where
  unfoldable pub build_and_invoke :
      AdapterDeposit → List AccountInfo → List ℕ → ℕ → List ℕ → Action ⊤
  build_and_invoke ctx remaining discriminator amount extra_data = do
    let bytes = discriminator ++ (le_bytes 8 amount ++ extra_data)
    invoke (record { program_id = program_id; accounts = map to_meta remaining; bytes = bytes })
        remaining
    emit (
        Event.marginfi (
          deposited
            (record { authority = ctx.authority.key; program_id = program_id; amount = amount })))

  unfoldable pub lending_account_deposit :
      AdapterDeposit → List AccountInfo → AdapterDepositArgs → Action ⊤
  unfolding build_and_invoke
  lending_account_deposit ctx remaining args = do
    extra_data ← slice_from args.extra_data 1
    build_and_invoke ctx remaining lending_account_deposit_discriminator args.amount extra_data

  unfoldable pub adapter_deposit : AdapterDeposit → List AccountInfo → AdapterDepositArgs → Action ⊤
  unfolding validate lending_account_deposit
  adapter_deposit ctx remaining args = do
    validate ctx args
    selector ← index args.extra_data 0
    if selector == 0
        then lending_account_deposit ctx remaining args
        else fail (Error.marginfi unknown_function)

  -- The instruction as the program exposes it.
  unfoldable pub process : List AccountInfo → AdapterDepositArgs → Action ⊤
  unfolding try_accounts adapter_deposit
  process accounts args = do
    (ctx, remaining) ← try_accounts accounts
    adapter_deposit ctx remaining args
