-- ===== src/Adapters/Maple/Deposit.antt =====
-- programs/maple-adapter/src/instructions/adapter_deposit.rs
use solana_yield_adapter_sta.Prelude.{
  ℕ, ⊤, List, [], ◌∷◌, ◌++◌, map, not, ◌==◌, leb, if◌then◌else◌, length,
}
use solana_yield_adapter_sta.Types.{anchor, account_not_enough_keys, Event, Error}
use solana_yield_adapter_sta.Types.Maple.{
  deposited, invalid_account, invalid_args, unauthorized, unknown_function,
}
use solana_yield_adapter_sta.Solana.Accounts.{AccountInfo}
use solana_yield_adapter_sta.Solana.World.{
  Action, Invoke, ◌>>=◌, ◌>>◌, pure, fail, require, emit, index, slice_from,
}
use solana_yield_adapter_sta.Solana.Anchor.{signer, mutable, to_meta}
use solana_yield_adapter_sta.Adapters.Maple.{program_id, ccip_send_bytes}

pub record AdapterDepositArgs : Type 0 where
  pub amount : ℕ
  pub extra_data : List ℕ

pub record AdapterDeposit : Type 0 where
  pub authority : AccountInfo

-- The accounts of the instruction, and the remaining ones.
unfoldable pub try_accounts : List AccountInfo → Action (AdapterDeposit × List AccountInfo)
try_accounts (authority ∷ remaining) = do
  signer authority
  mutable authority
  pure (record { authority = authority }, remaining)
try_accounts [] = fail (anchor account_not_enough_keys)

unfoldable pub validate : AdapterDeposit → List AccountInfo → AdapterDepositArgs → Action ⊤
validate ctx remaining args = do
  require (not (length args.extra_data == 0)) (Error.maple invalid_args)
  require (leb 18 (length remaining)) (Error.maple invalid_account)
  third ← index remaining 3
  require (third.key == ctx.authority.key) (Error.maple unauthorized)
  require third.is_signer (Error.maple unauthorized)

module _ (invoke : Invoke) where
  unfoldable pub build_and_invoke_ccip :
      AdapterDeposit → List AccountInfo → List ℕ → ℕ → List ℕ → Action ⊤
  build_and_invoke_ccip ctx remaining discriminator amount extra_data = do
    let bytes = discriminator ++ extra_data
    invoke (record { program_id = program_id; accounts = map to_meta remaining; bytes = bytes })
        remaining
    emit (
        Event.maple (
          deposited
            (record { authority = ctx.authority.key; program_id = program_id; amount = amount })))

  unfoldable pub ccip_send : AdapterDeposit → List AccountInfo → AdapterDepositArgs → Action ⊤
  unfolding build_and_invoke_ccip
  ccip_send ctx remaining args = do
    extra_data ← slice_from args.extra_data 1
    build_and_invoke_ccip ctx remaining ccip_send_bytes args.amount extra_data

  unfoldable pub adapter_deposit : AdapterDeposit → List AccountInfo → AdapterDepositArgs → Action ⊤
  unfolding validate ccip_send
  adapter_deposit ctx remaining args = do
    validate ctx remaining args
    selector ← index args.extra_data 0
    if selector == 0 then ccip_send ctx remaining args else fail (Error.maple unknown_function)

  -- The instruction as the program exposes it.
  unfoldable pub process : List AccountInfo → AdapterDepositArgs → Action ⊤
  unfolding try_accounts adapter_deposit
  process accounts args = do
    (ctx, remaining) ← try_accounts accounts
    adapter_deposit ctx remaining args
