-- ===== src/Tests/Lifecycle.antt =====
-- A registry is founded, an adapter registered and paused.
use solana_yield_adapter_sta.Prelude.{ℕ, ◌≡◌, refl, some, [], ◌∷◌}
use solana_yield_adapter_sta.Prelude.{arith}
use solana_yield_adapter_sta.Solana.Accounts.{Pubkey}
use solana_yield_adapter_sta.Types.{dispatcher}
use solana_yield_adapter_sta.Types.Dispatcher.{adapter, inactive}
use solana_yield_adapter_sta.Interface.{from_u8, as_u8}
use solana_yield_adapter_sta.Solana.Result.{ok, err}
use solana_yield_adapter_sta.Solana.World.{World}
use solana_yield_adapter_sta.Dispatcher.State.{adapter_seeds, adapter_invariant, registry_invariant}
use solana_yield_adapter_sta.Dispatcher.RegistryInit
use solana_yield_adapter_sta.Dispatcher.RegistryInit.{initializer_key}
use solana_yield_adapter_sta.Dispatcher.AdapterInit
use solana_yield_adapter_sta.Dispatcher.ToggleAdapter
use solana_yield_adapter_sta.Dispatcher.Deposit
use solana_yield_adapter_sta.Dispatcher.Lifecycle.Steps.{
  Step, registry_init, adapter_init, toggle_adapter, Reach, here, next,
}
use solana_yield_adapter_sta.Dispatcher.Lifecycle.Safety.{IsSafe, Reach-IsSafe, Reach-Evolves}
use solana_yield_adapter_sta.Dispatcher.Lifecycle.Pausing.{toggle_twice, toggled-deposit_inactive}
use solana_yield_adapter_sta.Tests.Fixtures.{
  chain, accepting, accepting-KeepsAccounts, deposit_to_vec, setting, initializer, caller, info,
  registry_info, system_program, vault, init_args, active_entry, deposit_args, empty_world,
  founded_world, registered_world, paused_world,
}

founding_run :
    RegistryInit.process chain (initializer ∷ registry_info ∷ system_program ∷ []) empty_world
    ≡ ok (tt, founded_world)
unfolding RegistryInit.process registry_invariant
founding_run = refl

registering_run :
    AdapterInit.process chain
      (initializer ∷ info ∷ registry_info ∷ system_program ∷ [])
      init_args
      founded_world
    ≡ ok (tt, registered_world)
unfolding AdapterInit.process adapter_invariant from_u8 adapter_seeds
registering_run = refl

toggling_run :
    ToggleAdapter.process chain (caller ∷ info ∷ []) registered_world ≡ ok (tt, paused_world)
unfolding ToggleAdapter.process from_u8 as_u8 adapter_seeds
toggling_run = refl

founding_step : Step setting empty_world founded_world
founding_step = registry_init (initializer ∷ registry_info ∷ system_program ∷ []) founding_run

registering_step : Step setting founded_world registered_world
registering_step =
    adapter_init (initializer ∷ info ∷ registry_info ∷ system_program ∷ []) init_args (ground arith)
      registering_run

toggling_step : Step setting registered_world paused_world
toggling_step = toggle_adapter (caller ∷ info ∷ []) toggling_run

life : Reach setting empty_world paused_world
life = next (next (next here founding_step) registering_step) toggling_step

Reach-IsSafe_example : IsSafe chain paused_world.accounts
Reach-IsSafe_example =
    Reach-IsSafe setting accepting-KeepsAccounts empty_world paused_world (λ k. tt) life

-- The entry that is registered is still there, with another status.
Reach-Evolves_example :
    (s : ℕ) × (paused_world.accounts 4 ≡ some (adapter (record active_entry { status = s })))
    × (active_entry.status ≡ 2 → s ≡ 2)
Reach-Evolves_example =
    Reach-Evolves setting accepting-KeepsAccounts registered_world paused_world
      (next here toggling_step) 4

toggle_twice_example :
    (w₂ : World) × (ToggleAdapter.process chain (caller ∷ info ∷ []) paused_world ≡ ok (tt, w₂))
    × ((k : Pubkey) → w₂.accounts k ≡ registered_world.accounts k)
toggle_twice_example = toggle_twice chain caller info [] registered_world paused_world toggling_run

toggled-deposit_inactive_example :
    Deposit.process accepting deposit_to_vec chain
      (caller ∷ info ∷ vault ∷ [])
      deposit_args
      paused_world
    ≡ err (dispatcher inactive)
toggled-deposit_inactive_example =
    toggled-deposit_inactive chain caller info [] registered_world paused_world active_entry
      toggling_run refl refl accepting deposit_to_vec caller (vault ∷ []) deposit_args refl refl
