-- ===== src/Dispatcher/Withdraw.antt =====
-- programs/dispatcher/src/instructions/withdraw.rs
use solana_yield_adapter_sta.Prelude.{ℕ, ⊤, List, ◌∷◌, ◌++◌, map, true, leb, length}
use solana_yield_adapter_sta.Types.{dispatcher, withdraw as withdraw_event}
use solana_yield_adapter_sta.Types.Dispatcher.{Adapter, inactive, overflow}
use solana_yield_adapter_sta.Interface.{
  WithdrawArgs, adapter_withdraw_discriminator, extra_data_max_len,
}
use solana_yield_adapter_sta.Solana.Accounts.{AccountInfo, Instruction}
use solana_yield_adapter_sta.Solana.Result.{Result}
use solana_yield_adapter_sta.Solana.World.{Action, Invoke, ◌>>=◌, ◌>>◌, pure, lift, require, emit}
use solana_yield_adapter_sta.Solana.Anchor.{
  Chain, next_account, signer, mutable, load_adapter, seeds_bump, to_meta, new_readonly,
}
use solana_yield_adapter_sta.Dispatcher.State.{id, adapter_seeds, adapter_is_active}

pub record Withdraw : Type 0 where
  pub signer : AccountInfo
  pub adapter : Adapter

-- The accounts of the instruction, and the remaining ones.
unfoldable pub try_accounts : Chain → List AccountInfo → Action (Withdraw × List AccountInfo)
try_accounts c accounts = do
  (caller, others) ← next_account accounts
  signer caller
  (adapter_info, remaining) ← next_account others
  a ← load_adapter id adapter_info
  mutable caller
  seeds_bump c id (adapter_seeds a.program_id a.authority) a.bump adapter_info
  pure (record { signer = caller; adapter = a }, remaining)

unfoldable pub validate : Withdraw → WithdrawArgs → Action ⊤
unfolding adapter_is_active
validate ctx args = do
  require (← lift (adapter_is_active ctx.adapter)) (dispatcher inactive)
  require (leb (length args.extra_data) extra_data_max_len) (dispatcher overflow)

-- The instruction that the adapter program receives.
unfoldable pub build : Withdraw → List AccountInfo → List ℕ → Instruction
build ctx remaining serialized_args = record {
  program_id = ctx.adapter.program_id;
  accounts = new_readonly ctx.signer.key true ∷ map to_meta remaining;
  bytes = adapter_withdraw_discriminator ++ serialized_args;
}

-- `to_vec` is `borsh::to_vec` on the arguments.
module _ (invoke : Invoke) (to_vec : WithdrawArgs → Result (List ℕ)) where
  unfoldable pub withdraw : Withdraw → List AccountInfo → WithdrawArgs → Action ⊤
  unfolding validate build
  withdraw ctx remaining args = do
    validate ctx args
    serialized_args ← lift (to_vec args)
    invoke (build ctx remaining serialized_args) (ctx.signer ∷ remaining)
    emit (
        withdraw_event (record {
          authority = ctx.signer.key;
          program_id = ctx.adapter.program_id;
          amount = args.amount;
        }))

  -- The instruction as the program exposes it.
  unfoldable pub process : Chain → List AccountInfo → WithdrawArgs → Action ⊤
  unfolding try_accounts
  process c accounts args = do
    (ctx, remaining) ← try_accounts c accounts
    withdraw ctx remaining args
