-- ===== src/Dispatcher/ToggleAdapter.antt =====
-- programs/dispatcher/src/instructions/toggle_adapter.rs
use solana_yield_adapter_sta.Prelude.{⊤, List, ◌==◌}
use solana_yield_adapter_sta.Types.{dispatcher, toggle}
use solana_yield_adapter_sta.Types.Dispatcher.{DispatcherError, Adapter, adapter, unauthorized}
use solana_yield_adapter_sta.Interface.{AdapterStatus, active, paused, as_u8}
use solana_yield_adapter_sta.Solana.Accounts.{Pubkey, AccountInfo}
use solana_yield_adapter_sta.Solana.Result.{Result, ok, err}
use solana_yield_adapter_sta.Solana.World.{Action, ◌>>=◌, ◌>>◌, pure, lift, require, emit, store}
use solana_yield_adapter_sta.Solana.Anchor.{
  Chain, next_account, signer, mutable, load_adapter, seeds_bump,
}
use solana_yield_adapter_sta.Dispatcher.State.{id, adapter_seeds, adapter_status}

-- The accounts of the instruction: the adapter's data, and its address.
pub record ToggleAdapter : Type 0 where
  pub authority : AccountInfo
  pub adapter : Adapter
  pub adapter_key : Pubkey

unfoldable pub next_status : AdapterStatus → Result AdapterStatus
next_status AdapterStatus.active = ok paused
next_status AdapterStatus.paused = ok active
next_status AdapterStatus.deprecated = err (dispatcher DispatcherError.deprecated)

module _ (c : Chain) where
  unfoldable pub try_accounts : List AccountInfo → Action ToggleAdapter
  try_accounts accounts = do
    (authority, others) ← next_account accounts
    signer authority
    (adapter_info, rest) ← next_account others
    a ← load_adapter id adapter_info
    mutable authority
    seeds_bump c id (adapter_seeds a.program_id a.authority) a.bump adapter_info
    mutable adapter_info
    require (a.authority == authority.key) (dispatcher unauthorized)
    pure (record { authority = authority; adapter = a; adapter_key = adapter_info.key })

unfoldable pub toggle_adapter : ToggleAdapter → Action ⊤
unfolding next_status adapter_status
toggle_adapter ctx = do
  status ← lift (adapter_status ctx.adapter)
  next ← lift (next_status status)
  let a : Adapter = record ctx.adapter { status = as_u8 next }
  emit (
      toggle (record {
        authority = ctx.authority.key;
        adapter = ctx.adapter_key;
        program_id = a.program_id;
        status = a.status;
      }))
  store ctx.adapter_key (adapter a)

-- The instruction as the program exposes it.
unfoldable pub process : Chain → List AccountInfo → Action ⊤
unfolding try_accounts toggle_adapter
process c accounts = do toggle_adapter (← try_accounts c accounts)
