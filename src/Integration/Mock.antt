-- ===== src/Integration/Mock.antt =====
-- The dispatcher with the mock adapter (programs/mock-adapter), which the tests of the dispatcher
-- register (tests/dispatcher).
use solana_yield_adapter_sta.Prelude.{
  ℕ, ⊤, ◌≡◌, ◌≤◌, ◌<◌, ◌^◌, ◌∙◌, arith, length, List, ◌∷◌, ◌++◌, none, map,
}
use solana_yield_adapter_sta.Prelude.Bytes.{le_bytes, length-le_bytes}
use solana_yield_adapter_sta.Types.{Event}
use solana_yield_adapter_sta.Types.Dispatcher.{Adapter}
use solana_yield_adapter_sta.Types.Mock.{
  MockEvent, deposit_called, withdraw_called, current_value_called,
}
use solana_yield_adapter_sta.Interface.{
  DepositArgs, WithdrawArgs, from_u8, is_active, read_return_u64, set_return_u64,
  adapter_deposit_discriminator, adapter_withdraw_discriminator,
  adapter_current_value_discriminator,
}
use solana_yield_adapter_sta.Solana.Accounts.{AccountInfo}
use solana_yield_adapter_sta.Solana.Result.{Result, ok}
use solana_yield_adapter_sta.Solana.World.{World, Invoke, Action}
use solana_yield_adapter_sta.Dispatcher.State
use solana_yield_adapter_sta.Dispatcher.Deposit
use solana_yield_adapter_sta.Dispatcher.Withdraw
use solana_yield_adapter_sta.Dispatcher.CurrentValue
use solana_yield_adapter_sta.Dispatcher.Routing.Deposits
use solana_yield_adapter_sta.Dispatcher.Routing.Withdrawals
use solana_yield_adapter_sta.Dispatcher.Routing.Values
use solana_yield_adapter_sta.Dispatcher.Routing.Wire.{borsh, DepositLayout, WithdrawLayout}
use solana_yield_adapter_sta.Adapters.Answer.{answer}
use solana_yield_adapter_sta.Adapters.Mock
use solana_yield_adapter_sta.Integration.Deployment.{Deployed}
use solana_yield_adapter_sta.Integration.Routed.Seen.{seen, cleared, seen-is_signer}
use solana_yield_adapter_sta.Integration.Routed.Values.{handed_on}

abbrev pub deposit : List AccountInfo → ℕ → List ℕ → Action ⊤
deposit accounts amount extra_data =
    Mock.deposit_process accounts (record { amount = amount; extra_data = extra_data })

abbrev pub withdraw : List AccountInfo → ℕ → List ℕ → Action ⊤
withdraw accounts amount extra_data =
    Mock.withdraw_process accounts (record { amount = amount; extra_data = extra_data })

-- A world with one event of the mock more, and no return data.
abbrev noted : MockEvent → World → World
noted event w = record w { return_data = none; log = Event.mock event ∷ w.log }

module _ (invoke : Invoke) (a : Adapter)
    (on_chain : Deployed invoke a.program_id deposit withdraw Mock.current_value_process)
    (active : a.status ≡ 0) (caller : AccountInfo) (remaining : List AccountInfo) (amount : ℕ)
    (extra_data : List ℕ) (w : World) (wide : amount < 2 ^ 64) (short : length extra_data ≤ 64)
    (deposit_to_vec : DepositArgs → Result (List ℕ)) (deposit_layout : DepositLayout deposit_to_vec)
    (withdraw_to_vec : WithdrawArgs → Result (List ℕ))
    (withdraw_layout : WithdrawLayout withdraw_to_vec) where
  abbrev accounts : List AccountInfo
  accounts = map (seen caller remaining) (caller ∷ remaining)

  abbrev called : DepositArgs
  called = record { amount = amount; extra_data = extra_data }

  abbrev withdrawn : WithdrawArgs
  withdrawn = record { amount = amount; extra_data = extra_data }

  deposit_call :
      invoke
        (Deposits.sent
          (record { signer = caller; adapter = a })
          remaining
          (borsh amount extra_data))
        (caller ∷ remaining)
        w
      ≡ ok (
        tt,
        noted
            (deposit_called
              (record { authority = caller.key; amount = amount; extra_data = extra_data }))
            w,
      )
  unfolding Mock.deposit_process
  deposit_call =
      on_chain.runs caller remaining (adapter_deposit_discriminator ++ borsh amount extra_data) w
      ∙ on_chain.deposits accounts amount extra_data (cleared w) wide (omega arith)
      ∙ ground (arith, seen-is_signer caller remaining)

  withdraw_call :
      invoke
        (Withdrawals.sent
          (record { signer = caller; adapter = a })
          remaining
          (borsh amount extra_data))
        (caller ∷ remaining)
        w
      ≡ ok (
        tt,
        noted
            (withdraw_called
              (record { authority = caller.key; amount = amount; extra_data = extra_data }))
            w,
      )
  unfolding Mock.withdraw_process
  withdraw_call =
      on_chain.runs caller remaining (adapter_withdraw_discriminator ++ borsh amount extra_data) w
      ∙ on_chain.withdraws accounts amount extra_data (cleared w) wide (omega arith)
      ∙ ground (arith, seen-is_signer caller remaining)

  abbrev queried : Event
  queried =
      Event.mock
        (current_value_called (record { authority = caller.key; value = Mock.mock_current_value }))

  value_call :
      invoke
        (Values.asked (record { authority = caller; adapter = a }) remaining)
        (caller ∷ remaining)
        w
      ≡ ok (tt, answer Mock.id (le_bytes 8 Mock.mock_current_value) queried (cleared w))
  unfolding Mock.current_value_process set_return_u64
  value_call =
      on_chain.runs caller remaining adapter_current_value_discriminator w
      ∙ on_chain.queries accounts (cleared w)
      ∙ ground (arith, seen-is_signer caller remaining)

  -- Through an active mock adapter that is deployed under the registered key, with Borsh as
  -- documented, an amount below 2^64 and at most 64 bytes of extra data, every deposit, withdrawal
  -- and value query succeeds, for every caller and all remaining accounts: the mock's event records
  -- the caller's own key, amount and extra data, the dispatcher's event follows it, and a query
  -- gives the value 123456789.
  pub routed_mock :
      (Deposit.deposit invoke deposit_to_vec
          (record { signer = caller; adapter = a })
          remaining
          called
          w
        ≡ ok (
          tt,
          Deposits.logged
              (record { signer = caller; adapter = a })
              called
              (noted
                (deposit_called
                  (record { authority = caller.key; amount = amount; extra_data = extra_data }))
                w),
        ))
      × (Withdraw.withdraw invoke withdraw_to_vec
            (record { signer = caller; adapter = a })
            remaining
            withdrawn
            w
          ≡ ok (
            tt,
            Withdrawals.logged
                (record { signer = caller; adapter = a })
                withdrawn
                (noted
                  (withdraw_called
                    (record { authority = caller.key; amount = amount; extra_data = extra_data }))
                  w),
          ))
      × (CurrentValue.current_value invoke (record { authority = caller; adapter = a }) remaining w
          ≡ ok (tt, answer State.id (le_bytes 8 123_456_789) queried w))
  unfolding Deposit.deposit Withdraw.withdraw CurrentValue.current_value from_u8 is_active
      read_return_u64 set_return_u64
  routed_mock = (
    ground (arith, deposit_layout called wide (omega arith), deposit_call),
    ground (arith, withdraw_layout withdrawn wide (omega arith), withdraw_call),
    ground (arith, value_call, handed_on 123_456_789, length-le_bytes 8 123_456_789),
  )
