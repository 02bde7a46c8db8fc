-- ===== src/Tests/Privileges.antt =====
-- Calls under a runtime that watches the privileges.
use solana_yield_adapter_sta.Prelude.{◌≡◌, refl, [], ◌∷◌, some}
use solana_yield_adapter_sta.Dispatcher.Deposit
use solana_yield_adapter_sta.Dispatcher.Withdraw
use solana_yield_adapter_sta.Dispatcher.CurrentValue
use solana_yield_adapter_sta.Adapters.Kamino
use solana_yield_adapter_sta.Adapters.Kamino.Standard as Standard
use solana_yield_adapter_sta.Adapters.Venue.{kamino}
use solana_yield_adapter_sta.Integration.Privileges.{supervised}
use solana_yield_adapter_sta.Integration.Privileges.Adapters.{adapters-supervised}
use solana_yield_adapter_sta.Integration.Privileges.Dispatcher.{dispatcher-supervised}
use solana_yield_adapter_sta.Tests.Fixtures.{
  chain, accepting, echoing, deposit_to_vec, withdraw_to_vec, caller, info, vault, active_entry,
  deposit_args, withdraw_args, registered_world,
}

dispatcher-supervised_example :
    (Deposit.process
        (supervised (caller ∷ info ∷ vault ∷ []) 30 accepting)
        deposit_to_vec
        chain
        (caller ∷ info ∷ vault ∷ [])
        deposit_args
        registered_world
      ≡ Deposit.process accepting deposit_to_vec chain
          (caller ∷ info ∷ vault ∷ [])
          deposit_args
          registered_world)
    × (Withdraw.process
          (supervised (caller ∷ info ∷ vault ∷ []) 30 accepting)
          withdraw_to_vec
          chain
          (caller ∷ info ∷ vault ∷ [])
          withdraw_args
          registered_world
        ≡ Withdraw.process accepting withdraw_to_vec chain
            (caller ∷ info ∷ vault ∷ [])
            withdraw_args
            registered_world)
    × (CurrentValue.process
          (supervised (caller ∷ info ∷ vault ∷ []) 30 accepting)
          chain
          (caller ∷ info ∷ vault ∷ [])
          registered_world
        ≡ CurrentValue.process accepting chain (caller ∷ info ∷ vault ∷ []) registered_world)
dispatcher-supervised_example =
    dispatcher-supervised accepting chain caller info (vault ∷ []) registered_world active_entry
      refl deposit_to_vec withdraw_to_vec deposit_args withdraw_args

adapters-supervised_example :
    (Standard.deposit
        (supervised (caller ∷ vault ∷ []) Kamino.program_id echoing)
        (caller ∷ vault ∷ [])
        1000
        (2 ∷ 8 ∷ [])
        registered_world
      ≡ Standard.deposit echoing (caller ∷ vault ∷ []) 1000 (2 ∷ 8 ∷ []) registered_world)
    × (Standard.withdraw
          (supervised (caller ∷ vault ∷ []) Kamino.program_id echoing)
          (caller ∷ vault ∷ [])
          1000
          (2 ∷ 8 ∷ [])
          registered_world
        ≡ Standard.withdraw echoing (caller ∷ vault ∷ []) 1000 (2 ∷ 8 ∷ []) registered_world)
adapters-supervised_example =
    adapters-supervised echoing (kamino (λ bytes. some 42)) (caller ∷ vault ∷ []) 1000 (2 ∷ 8 ∷ [])
      registered_world
