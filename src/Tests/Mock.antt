-- ===== src/Tests/Mock.antt =====
-- A runtime with the mock adapter as program 30, and calls through the dispatcher on it.
use solana_yield_adapter_sta.Prelude.{◌≡◌, refl, arith, [], ◌∷◌, none}
use solana_yield_adapter_sta.Prelude.Bytes.{le_bytes}
use solana_yield_adapter_sta.Types.{Event}
use solana_yield_adapter_sta.Types.Mock.{
  MockEvent, deposit_called, withdraw_called, current_value_called,
}
use solana_yield_adapter_sta.Solana.Result.{ok}
use solana_yield_adapter_sta.Solana.World.{World, Invoke}
use solana_yield_adapter_sta.Dispatcher.State
use solana_yield_adapter_sta.Dispatcher.Deposit
use solana_yield_adapter_sta.Dispatcher.Withdraw
use solana_yield_adapter_sta.Dispatcher.CurrentValue
use solana_yield_adapter_sta.Dispatcher.Routing.Deposits
use solana_yield_adapter_sta.Dispatcher.Routing.Withdrawals
use solana_yield_adapter_sta.Adapters.Mock
use solana_yield_adapter_sta.Integration.Deployment.{Deployed}
use solana_yield_adapter_sta.Integration.Mock.{deposit, withdraw, routed_mock}
use solana_yield_adapter_sta.Tests.Runtimes.{served, run, received}
use solana_yield_adapter_sta.Tests.Fixtures.{
  caller, vault, active_entry, deposit_to_vec, deposit_to_vec-DepositLayout, withdraw_to_vec,
  withdraw_to_vec-WithdrawLayout, registered_world, relayed,
}

abbrev runtime : Invoke
runtime = run (served deposit withdraw Mock.current_value_process)

deployed : Deployed runtime 30 deposit withdraw Mock.current_value_process
deployed = record {
  entry = served deposit withdraw Mock.current_value_process;
  runs = λ from remaining bytes w. refl;
  deposits = λ accounts amount extra_data w h size.
      received (λ n extra. deposit accounts n extra w) amount extra_data h size;
  withdraws = λ accounts amount extra_data w h size.
      received (λ n extra. withdraw accounts n extra w) amount extra_data h size;
  queries = λ accounts w. refl;
}

-- The registered world with the mock's event.
abbrev noted : MockEvent → World
noted event = record registered_world { return_data = none; log = Event.mock event ∷ [] }

routed_mock_example :
    (Deposit.deposit runtime deposit_to_vec
        (record { signer = caller; adapter = active_entry })
        (vault ∷ [])
        (record { amount = 1000; extra_data = 7 ∷ [] })
        registered_world
      ≡ ok (
        tt,
        Deposits.logged
            (record { signer = caller; adapter = active_entry })
            (record { amount = 1000; extra_data = 7 ∷ [] })
            (noted (deposit_called (record { authority = 9; amount = 1000; extra_data = 7 ∷ [] }))),
      ))
    × (Withdraw.withdraw runtime withdraw_to_vec
          (record { signer = caller; adapter = active_entry })
          (vault ∷ [])
          (record { amount = 1000; extra_data = 7 ∷ [] })
          registered_world
        ≡ ok (
          tt,
          Withdrawals.logged
              (record { signer = caller; adapter = active_entry })
              (record { amount = 1000; extra_data = 7 ∷ [] })
              (noted
                (withdraw_called (record { authority = 9; amount = 1000; extra_data = 7 ∷ [] }))),
        ))
    × (CurrentValue.current_value runtime
          (record { authority = caller; adapter = active_entry })
          (vault ∷ [])
          registered_world
        ≡ ok (
          tt,
          relayed State.id
              (le_bytes 8 123_456_789)
              (Event.mock (current_value_called (record { authority = 9; value = 123_456_789 }))),
        ))
routed_mock_example =
    routed_mock runtime active_entry deployed refl caller (vault ∷ []) 1000 (7 ∷ [])
      registered_world (ground arith) (ground arith) deposit_to_vec deposit_to_vec-DepositLayout
      withdraw_to_vec withdraw_to_vec-WithdrawLayout
