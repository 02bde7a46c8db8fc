-- ===== src/Dispatcher/CurrentValue.antt =====
-- programs/dispatcher/src/instructions/current_value.rs
use solana_yield_adapter_sta.Prelude.{⊤, List, ◌∷◌, map, true}
use solana_yield_adapter_sta.Types.{dispatcher}
use solana_yield_adapter_sta.Types.Dispatcher.{Adapter, inactive}
use solana_yield_adapter_sta.Interface.{
  adapter_current_value_discriminator, read_return_u64, set_return_u64,
}
use solana_yield_adapter_sta.Solana.Accounts.{AccountInfo, Instruction}
use solana_yield_adapter_sta.Solana.World.{Action, Invoke, ◌>>=◌, ◌>>◌, pure, lift, require}
use solana_yield_adapter_sta.Solana.Anchor.{
  Chain, next_account, signer, mutable, load_adapter, seeds_bump, to_meta, new_readonly,
}
use solana_yield_adapter_sta.Dispatcher.State.{id, adapter_seeds, adapter_is_active}

pub record CurrentValue : Type 0 where
  pub authority : AccountInfo
  pub adapter : Adapter

-- The accounts of the instruction, and the remaining ones.
unfoldable pub try_accounts : Chain → List AccountInfo → Action (CurrentValue × List AccountInfo)
try_accounts c accounts = do
  (caller, others) ← next_account accounts
  signer caller
  (adapter_info, remaining) ← next_account others
  a ← load_adapter id adapter_info
  mutable caller
  seeds_bump c id (adapter_seeds a.program_id a.authority) a.bump adapter_info
  pure (record { authority = caller; adapter = a }, remaining)

unfoldable pub validate : CurrentValue → Action ⊤
unfolding adapter_is_active
validate ctx = do require (← lift (adapter_is_active ctx.adapter)) (dispatcher inactive)

-- The instruction that the adapter program receives.
unfoldable pub build : CurrentValue → List AccountInfo → Instruction
build ctx remaining = record {
  program_id = ctx.adapter.program_id;
  accounts = new_readonly ctx.authority.key true ∷ map to_meta remaining;
  bytes = adapter_current_value_discriminator;
}

module _ (invoke : Invoke) where
  unfoldable pub current_value : CurrentValue → List AccountInfo → Action ⊤
  unfolding validate build
  current_value ctx remaining = do
    validate ctx
    invoke (build ctx remaining) (ctx.authority ∷ remaining)
    value ← read_return_u64
    set_return_u64 id value

  -- The instruction as the program exposes it.
  unfoldable pub process : Chain → List AccountInfo → Action ⊤
  unfolding try_accounts
  process c accounts = do (ctx, remaining) ← try_accounts c accounts; current_value ctx remaining
