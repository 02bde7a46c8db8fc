-- ===== src/Dispatcher/AdapterInit.antt =====
-- programs/dispatcher/src/instructions/adapter_init.rs
use solana_yield_adapter_sta.Prelude.{ℕ, ⊤, List, ◌==◌, ◌+◌, is_some}
use solana_yield_adapter_sta.Types.{dispatcher}
use solana_yield_adapter_sta.Types.Dispatcher.{
  Registry, Adapter, adapter, unauthorized, invalid_status,
}
use solana_yield_adapter_sta.Interface.{from_u8}
use solana_yield_adapter_sta.Solana.Accounts.{Pubkey, AccountInfo}
use solana_yield_adapter_sta.Solana.World.{Action, ◌>>=◌, ◌>>◌, pure, lift, require, store}
use solana_yield_adapter_sta.Solana.Anchor.{
  Chain, next_account, signer, mutable, system, init, load_registry, seeds_bump,
}
use solana_yield_adapter_sta.Dispatcher.State.{id, registry_seeds, adapter_seeds, adapter_invariant}

pub record AdapterInitArgs : Type 0 where
  pub authority : Pubkey
  pub program_id : Pubkey
  pub supported_mint : Pubkey
  pub status : ℕ

-- Three keys, a `u8`, an `i64` and a `u8`.
abbrev pub adapter_space : ℕ
adapter_space = 8 + (32 + 32 + 32 + 1 + 8 + 1)

-- The accounts of the instruction, with `ctx.bumps.adapter`.
pub record AdapterInit : Type 0 where
  pub initializer : AccountInfo
  pub adapter : AccountInfo
  pub adapter_bump : ℕ
  pub registry : Registry

unfoldable pub validate : AdapterInitArgs → Action ⊤
validate args = require (is_some (from_u8 args.status)) (dispatcher invalid_status)

module _ (c : Chain) where
  unfoldable pub try_accounts : List AccountInfo → AdapterInitArgs → Action AdapterInit
  try_accounts accounts args = do
    (initializer, others) ← next_account accounts
    signer initializer
    (adapter_info, others₂) ← next_account others
    (registry_info, others₃) ← next_account others₂
    reg ← load_registry id registry_info
    (system_program, rest) ← next_account others₃
    system system_program
    bump ←
        init c id initializer adapter_space (adapter_seeds args.program_id args.authority)
          adapter_info
    mutable initializer
    seeds_bump c id registry_seeds reg.bump registry_info
    require (reg.initializer == initializer.key) (dispatcher unauthorized)
    pure (record {
      initializer = initializer;
      adapter = adapter_info;
      adapter_bump = bump;
      registry = reg;
    })

  unfoldable pub adapter_init : AdapterInit → AdapterInitArgs → Action ⊤
  unfolding validate
  adapter_init ctx args = do
    validate args
    registered_at ← lift c.unix_timestamp
    let inner : Adapter = record {
      authority = args.authority;
      program_id = args.program_id;
      supported_mint = args.supported_mint;
      status = args.status;
      registered_at = registered_at;
      bump = ctx.adapter_bump;
    }
    lift (adapter_invariant inner)
    store ctx.adapter.key (adapter inner)

  -- The instruction as the program exposes it.
  unfoldable pub process : List AccountInfo → AdapterInitArgs → Action ⊤
  unfolding try_accounts adapter_init
  process accounts args = do ctx ← try_accounts accounts args; adapter_init ctx args
