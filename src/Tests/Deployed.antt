-- ===== src/Tests/Deployed.antt =====
-- Calls through the dispatcher into the Kamino adapter.
use solana_yield_adapter_sta.Prelude.{◌≡◌, refl, arith, [], ◌∷◌, ◌++◌, map}
use solana_yield_adapter_sta.Prelude.Bytes.{le_bytes}
use solana_yield_adapter_sta.Types.{Event}
use solana_yield_adapter_sta.Types.Kamino.{deposited, withdrawn, valued}
use solana_yield_adapter_sta.Solana.Result.{ok}
use solana_yield_adapter_sta.Solana.World.{World}
use solana_yield_adapter_sta.Dispatcher.State
use solana_yield_adapter_sta.Dispatcher.Deposit
use solana_yield_adapter_sta.Dispatcher.Withdraw
use solana_yield_adapter_sta.Dispatcher.CurrentValue
use solana_yield_adapter_sta.Dispatcher.Routing.Deposits
use solana_yield_adapter_sta.Dispatcher.Routing.Withdrawals
use solana_yield_adapter_sta.Adapters.Kamino
use solana_yield_adapter_sta.Integration.Amounts.{Paid, deposit-Paid, withdraw-Paid}
use solana_yield_adapter_sta.Integration.Routed.Seen.{seen, cleared}
use solana_yield_adapter_sta.Integration.Routed.Deposits.{routed_deposit}
use solana_yield_adapter_sta.Integration.Routed.Withdrawals.{routed_withdraw}
use solana_yield_adapter_sta.Integration.Routed.Values.{routed_value}
use solana_yield_adapter_sta.Tests.Runtimes.{venue, runtime, deployed}
use solana_yield_adapter_sta.Tests.Fixtures.{
  caller, vault, active_entry, deposit_args, withdraw_args, deposit_to_vec,
  deposit_to_vec-DepositLayout, withdraw_to_vec, withdraw_to_vec-WithdrawLayout, registered_world,
  relayed, holding, zeros, zeros-IsByte,
}

abbrev deposited_world : World
deposited_world =
    Deposits.logged (record { signer = caller; adapter = active_entry }) deposit_args
      (relayed Kamino.program_id
        (Kamino.deposit_and_withdraw_bytes ++ (le_bytes 8 1000 ++ (8 ∷ [])))
        (Event.kamino
          (deposited (record { authority = 9; program_id = Kamino.program_id; amount = 1000 }))))

abbrev withdrawn_world : World
withdrawn_world =
    Withdrawals.logged (record { signer = caller; adapter = active_entry }) withdraw_args
      (relayed Kamino.program_id (Kamino.deposit_and_withdraw_bytes ++ (le_bytes 8 600 ++ (8 ∷ [])))
        (Event.kamino
          (withdrawn (record { authority = 9; program_id = Kamino.program_id; amount = 600 }))))

routed_deposit_example :
    Deposit.deposit runtime deposit_to_vec
      (record { signer = caller; adapter = active_entry })
      (caller ∷ vault ∷ [])
      deposit_args
      registered_world
    ≡ ok (tt, deposited_world)
routed_deposit_example =
    routed_deposit runtime venue active_entry deployed refl caller (caller ∷ vault ∷ []) 1000
      (3 ∷ 8 ∷ []) registered_world (ground arith) (ground arith) deposit_to_vec
      deposit_to_vec-DepositLayout

routed_withdraw_example :
    Withdraw.withdraw runtime withdraw_to_vec
      (record { signer = caller; adapter = active_entry })
      (caller ∷ vault ∷ [])
      withdraw_args
      registered_world
    ≡ ok (tt, withdrawn_world)
routed_withdraw_example =
    routed_withdraw runtime venue active_entry deployed refl caller (caller ∷ vault ∷ []) 600
      (2 ∷ 8 ∷ []) registered_world (ground arith) (ground arith) withdraw_to_vec
      withdraw_to_vec-WithdrawLayout

routed_value_example :
    CurrentValue.current_value runtime
      (record { authority = caller; adapter = active_entry })
      (holding (zeros 8) ∷ [])
      registered_world
    ≡ ok (
      tt,
      relayed State.id (le_bytes 8 42) (
          Event.kamino (
            valued (record { authority = 9; program_id = Kamino.program_id; current_value = 42 }))),
    )
routed_value_example =
    routed_value runtime venue active_entry deployed refl caller (holding (zeros 8) ∷ [])
      registered_world (ground arith, zeros-IsByte 8)

deposit_run :
    Deposit.deposit runtime deposit_to_vec
      (record { signer = caller; adapter = active_entry })
      (caller ∷ vault ∷ [])
      deposit_args
      registered_world
    ≡ ok (tt, deposited_world)
deposit_run =
    routed_deposit runtime venue active_entry deployed refl caller (caller ∷ vault ∷ []) 1000
      (3 ∷ 8 ∷ []) registered_world (ground arith) (ground arith) deposit_to_vec
      deposit_to_vec-DepositLayout

withdraw_run :
    Withdraw.withdraw runtime withdraw_to_vec
      (record { signer = caller; adapter = active_entry })
      (caller ∷ vault ∷ [])
      withdraw_args
      registered_world
    ≡ ok (tt, withdrawn_world)
withdraw_run =
    routed_withdraw runtime venue active_entry deployed refl caller (caller ∷ vault ∷ []) 600
      (2 ∷ 8 ∷ []) registered_world (ground arith) (ground arith) withdraw_to_vec
      withdraw_to_vec-WithdrawLayout

deposit-Paid_example :
    Paid runtime Kamino.program_id
      (map (seen caller (caller ∷ vault ∷ [])) (caller ∷ vault ∷ []))
      1000
      (Event.kamino
        (deposited (record { authority = 9; program_id = Kamino.program_id; amount = 1000 })))
      (Event.deposit (record { authority = 9; program_id = 30; amount = 1000 }))
      (cleared registered_world)
      deposited_world
deposit-Paid_example =
    deposit-Paid runtime venue tt active_entry deployed refl caller (caller ∷ vault ∷ []) 1000
      (3 ∷ 8 ∷ []) registered_world deposited_world (ground arith) (ground arith) deposit_to_vec
      deposit_to_vec-DepositLayout deposit_run

withdraw-Paid_example :
    Paid runtime Kamino.program_id
      (map (seen caller (caller ∷ vault ∷ [])) (caller ∷ vault ∷ []))
      600
      (Event.kamino
        (withdrawn (record { authority = 9; program_id = Kamino.program_id; amount = 600 })))
      (Event.withdraw (record { authority = 9; program_id = 30; amount = 600 }))
      (cleared registered_world)
      withdrawn_world
withdraw-Paid_example =
    withdraw-Paid runtime venue tt active_entry deployed refl caller (caller ∷ vault ∷ []) 600
      (2 ∷ 8 ∷ []) registered_world withdrawn_world (ground arith) (ground arith) withdraw_to_vec
      withdraw_to_vec-WithdrawLayout withdraw_run
