-- ===== src/Dispatcher/Lifecycle/Founding.antt =====
-- `registry_init` (programs/dispatcher/src/instructions/registry_init.rs).
use solana_yield_adapter_sta.Prelude.{◌≡◌, ◌↔◌, arith, true, List, ◌∷◌, none}
use solana_yield_adapter_sta.Types.Dispatcher.{registry}
use solana_yield_adapter_sta.Solana.Accounts.{AccountInfo}
use solana_yield_adapter_sta.Solana.Anchor.{Chain}
use solana_yield_adapter_sta.Solana.Result.{ok}
use solana_yield_adapter_sta.Solana.World.{World, update}
use solana_yield_adapter_sta.Dispatcher.State.{id, registry_seeds, registry_invariant}
use solana_yield_adapter_sta.Dispatcher.RegistryInit
use solana_yield_adapter_sta.Dispatcher.RegistryInit.{initializer_key, registry_space}

module _ (c : Chain) where
  -- The configured key has signed, and the registry's address was free.
  abbrev pub IsFounded : AccountInfo → AccountInfo → AccountInfo → World → World → Type 0
  IsFounded initializer info system w w' =
      let (k, bump) = c.find_program_address registry_seeds id in
      (initializer.is_signer ≡ true)
      × (initializer.is_writable ≡ true)
      × (info.is_writable ≡ true)
      × (system.key ≡ 0)
      × (initializer.key ≡ initializer_key)
      × (info.key ≡ k)
      × (w.accounts k ≡ none)
      × (c.create_account initializer info registry_space ≡ ok tt)
      × (w' ≡ record w {
        accounts =
            update w.accounts k (registry (record { initializer = initializer_key; bump = bump }));
      })

  -- The registry is created exactly when the configured key signs as a writable account, the system
  -- program is passed and makes the account, the registry account is writable and is the address
  -- found for the registry's seeds, and no account of the dispatcher stands there; it records that
  -- key and the found bump, and nothing else changes.
  pub registry_init-IsFounded :
      (initializer info system : AccountInfo) (rest : List AccountInfo) (w w' : World)
      → (RegistryInit.process c (initializer ∷ info ∷ system ∷ rest) w ≡ ok (tt, w'))
        ↔ IsFounded initializer info system w w'
  unfolding RegistryInit.process registry_invariant
  registry_init-IsFounded initializer info system rest w w' = (λ h. ground arith, λ t. ground arith)
