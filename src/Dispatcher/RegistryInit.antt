-- ===== src/Dispatcher/RegistryInit.antt =====
-- programs/dispatcher/src/instructions/registry_init.rs
use solana_yield_adapter_sta.Prelude.{ℕ, ⊤, List, ◌==◌, ◌+◌}
use solana_yield_adapter_sta.Types.{dispatcher}
use solana_yield_adapter_sta.Types.Dispatcher.{Registry, registry, unauthorized}
use solana_yield_adapter_sta.Solana.Accounts.{Pubkey, AccountInfo}
use solana_yield_adapter_sta.Solana.World.{Action, ◌>>=◌, ◌>>◌, pure, lift, require, store}
use solana_yield_adapter_sta.Solana.Anchor.{Chain, next_account, signer, mutable, system, init}
use solana_yield_adapter_sta.Dispatcher.State.{id, registry_seeds, registry_invariant}

-- GAe1b8H1eUQhGuwAEJKstXLFdpaoHp9voszu1uw46Htm
abbrev pub initializer_key : Pubkey
initializer_key = 0xb20233d85a44155573aae2cfe6a88d271a2978cd799112fa8fb53b35f16057e1

-- A key and a `u8`.
abbrev pub registry_space : ℕ
registry_space = 8 + (32 + 1)

-- The accounts of the instruction, with `ctx.bumps.registry`.
pub record RegistryInit : Type 0 where
  pub initializer : AccountInfo
  pub registry : AccountInfo
  pub registry_bump : ℕ

module _ (c : Chain) where
  unfoldable pub try_accounts : List AccountInfo → Action RegistryInit
  try_accounts accounts = do
    (initializer, others) ← next_account accounts
    signer initializer
    (registry_info, others₂) ← next_account others
    (system_program, rest) ← next_account others₂
    system system_program
    bump ← init c id initializer registry_space registry_seeds registry_info
    mutable initializer
    require (initializer.key == initializer_key) (dispatcher unauthorized)
    pure (record { initializer = initializer; registry = registry_info; registry_bump = bump })

  unfoldable pub registry_init : RegistryInit → Action ⊤
  registry_init ctx = do
    let inner : Registry = record { initializer = ctx.initializer.key; bump = ctx.registry_bump }
    lift (registry_invariant inner)
    store ctx.registry.key (registry inner)

  -- The instruction as the program exposes it.
  unfoldable pub process : List AccountInfo → Action ⊤
  unfolding try_accounts registry_init
  process accounts = do registry_init (← try_accounts accounts)
