-- ===== src/Tests/Outcomes.antt =====
-- The dispatcher's decision tables at concrete calls.
use solana_yield_adapter_sta.Prelude.{◌≡◌, [], ◌∷◌, some, false}
use solana_yield_adapter_sta.Prelude.Bytes.{le_bytes, from_le_bytes}
use solana_yield_adapter_sta.Types.{
  anchor, dispatcher, account_not_signer, account_not_enough_keys, account_not_initialized,
  account_owned_by_wrong_program, account_discriminator_not_found, account_discriminator_mismatch,
}
use solana_yield_adapter_sta.Types.Dispatcher.{unauthorized, inactive}
use solana_yield_adapter_sta.Solana.Result.{ok, err}
use solana_yield_adapter_sta.Solana.Accounts.{AccountInfo}
use solana_yield_adapter_sta.Solana.World.{World}
use solana_yield_adapter_sta.Dispatcher.State.{adapter_seeds, id}
use solana_yield_adapter_sta.Dispatcher.RegistryInit
use solana_yield_adapter_sta.Dispatcher.AdapterInit
use solana_yield_adapter_sta.Dispatcher.ToggleAdapter
use solana_yield_adapter_sta.Dispatcher.Deposit
use solana_yield_adapter_sta.Dispatcher.Withdraw
use solana_yield_adapter_sta.Dispatcher.CurrentValue
use solana_yield_adapter_sta.Dispatcher.Routing.Deposits
use solana_yield_adapter_sta.Dispatcher.Outcomes.Deposits.{deposit_outcome}
use solana_yield_adapter_sta.Dispatcher.Outcomes.Withdrawals.{withdraw_outcome}
use solana_yield_adapter_sta.Dispatcher.Outcomes.Values.{value_outcome}
use solana_yield_adapter_sta.Dispatcher.Outcomes.Toggles.{toggle_outcome}
use solana_yield_adapter_sta.Dispatcher.Outcomes.Registrations.{registration_outcome}
use solana_yield_adapter_sta.Dispatcher.Outcomes.Foundings.{founding_outcome}
use solana_yield_adapter_sta.Tests.Fixtures.{
  chain, accepting, deposit_to_vec, withdraw_to_vec, initializer, caller, info, vault, init_args,
  registry_info, system_program, empty_world, deposit_args, withdraw_args, founded_world,
  registered_world, paused_world, active_entry,
}

abbrev called_world : World
called_world = record registered_world { return_data = some (30, le_bytes 8 77) }

deposit_outcome_example :
    Deposit.process accepting deposit_to_vec chain
      (caller ∷ info ∷ vault ∷ [])
      deposit_args
      registered_world
    ≡ ok (
      tt,
      Deposits.logged
          (record { signer = caller; adapter = active_entry })
          deposit_args
          called_world,
    )
unfolding adapter_seeds
deposit_outcome_example =
    deposit_outcome accepting deposit_to_vec chain (caller ∷ info ∷ vault ∷ []) deposit_args
      registered_world

abbrev unsigned : AccountInfo
unsigned = record caller { is_signer = false }

-- The accounts are taken one after the other: the missing signature is met before the missing
-- second account.
unsigned_alone :
    Deposit.process accepting deposit_to_vec chain (unsigned ∷ []) deposit_args registered_world
    ≡ err (anchor account_not_signer)
unsigned_alone =
    deposit_outcome accepting deposit_to_vec chain (unsigned ∷ []) deposit_args registered_world

caller_alone :
    Deposit.process accepting deposit_to_vec chain (caller ∷ []) deposit_args registered_world
    ≡ err (anchor account_not_enough_keys)
caller_alone =
    deposit_outcome accepting deposit_to_vec chain (caller ∷ []) deposit_args registered_world

-- In place of the adapter: the registry, a free address, an account of another program, and one of
-- the dispatcher that holds nothing yet.
registry_passed :
    ToggleAdapter.process chain (caller ∷ registry_info ∷ []) registered_world
    ≡ err (anchor account_discriminator_mismatch)
registry_passed = toggle_outcome chain (caller ∷ registry_info ∷ []) registered_world

free_passed :
    ToggleAdapter.process chain (caller ∷ vault ∷ []) registered_world
    ≡ err (anchor account_not_initialized)
free_passed = toggle_outcome chain (caller ∷ vault ∷ []) registered_world

foreign_passed :
    ToggleAdapter.process chain (caller ∷ record vault { owner = 30 } ∷ []) registered_world
    ≡ err (anchor account_owned_by_wrong_program)
foreign_passed = toggle_outcome chain (caller ∷ record vault { owner = 30 } ∷ []) registered_world

empty_passed :
    ToggleAdapter.process chain
      (caller ∷ record vault { owner = id; lamports = 1; borrow = some [] } ∷ [])
      registered_world
    ≡ err (anchor account_discriminator_not_found)
empty_passed =
    toggle_outcome chain (caller ∷ record vault { owner = id; lamports = 1; borrow = some [] } ∷ [])
      registered_world

-- Three accounts: the registry is looked at before the missing fourth.
no_registry_passed :
    AdapterInit.process chain (initializer ∷ info ∷ vault ∷ []) init_args founded_world
    ≡ err (anchor account_not_initialized)
no_registry_passed =
    registration_outcome chain (initializer ∷ info ∷ vault ∷ []) init_args founded_world

-- The adapter is paused.
withdraw_outcome_example :
    Withdraw.process accepting withdraw_to_vec chain
      (caller ∷ info ∷ vault ∷ [])
      withdraw_args
      paused_world
    ≡ err (dispatcher inactive)
unfolding adapter_seeds
withdraw_outcome_example =
    withdraw_outcome accepting withdraw_to_vec chain (caller ∷ info ∷ vault ∷ []) withdraw_args
      paused_world

value_outcome_example :
    CurrentValue.process accepting chain (caller ∷ info ∷ vault ∷ []) registered_world
    ≡ ok (tt, record registered_world { return_data = some (id, le_bytes 8 77) })
unfolding adapter_seeds le_bytes from_le_bytes
value_outcome_example = value_outcome accepting chain (caller ∷ info ∷ vault ∷ []) registered_world

-- The initializer is not the adapter's authority.
toggle_outcome_example :
    ToggleAdapter.process chain (initializer ∷ info ∷ []) registered_world
    ≡ err (dispatcher unauthorized)
unfolding adapter_seeds
toggle_outcome_example = toggle_outcome chain (initializer ∷ info ∷ []) registered_world

-- The signer is not the registry's initializer.
registration_outcome_example :
    AdapterInit.process chain
      (caller ∷ info ∷ registry_info ∷ system_program ∷ [])
      init_args
      founded_world
    ≡ err (dispatcher unauthorized)
unfolding adapter_seeds
registration_outcome_example =
    registration_outcome chain (caller ∷ info ∷ registry_info ∷ system_program ∷ []) init_args
      founded_world

founding_outcome_example :
    RegistryInit.process chain (initializer ∷ registry_info ∷ system_program ∷ []) empty_world
    ≡ ok (tt, founded_world)
founding_outcome_example =
    founding_outcome chain (initializer ∷ registry_info ∷ system_program ∷ []) empty_world
