-- ===== src/Tests/Selectors/Drift.antt =====
-- The Drift adapter at concrete calls.
use solana_yield_adapter_sta.Prelude.{◌≡◌, refl, arith, [], ◌∷◌, ◌++◌}
use solana_yield_adapter_sta.Prelude.Bytes.{le_bytes, from_le_bytes}
use solana_yield_adapter_sta.Types.{Event}
use solana_yield_adapter_sta.Types.Drift.{deposited, withdrawn, valued}
use solana_yield_adapter_sta.Solana.Result.{ok}
use solana_yield_adapter_sta.Adapters.Drift.{
  program_id, id, add_insurance_fund_stake_bytes, request_remove_insurance_fund_stake_bytes,
}
use solana_yield_adapter_sta.Adapters.Drift.Deposit
use solana_yield_adapter_sta.Adapters.Drift.Withdraw
use solana_yield_adapter_sta.Adapters.Drift.CurrentValue
use solana_yield_adapter_sta.Adapters.Drift.Standard.{drift_is_standard}
use solana_yield_adapter_sta.Tests.Fixtures.{
  caller, registered_world, echoing, relayed, holding, zeros, zeros-IsByte,
}

drift_is_standard_example :
    (Deposit.process echoing
        (caller ∷ (holding (zeros 112) ∷ []))
        (record { amount = 1000; extra_data = 1 ∷ 5 ∷ 6 ∷ 8 ∷ [] })
        registered_world
      ≡ ok (
        tt,
        relayed program_id
            (add_insurance_fund_stake_bytes ++ ((5 ∷ 6 ∷ 8 ∷ []) ++ le_bytes 8 1000))
            (Event.drift
              (deposited (record { authority = 9; program_id = program_id; amount = 1000 }))),
      ))
    × (Withdraw.process echoing
          (caller ∷ (holding (zeros 112) ∷ []))
          (record { amount = 1000; extra_data = 1 ∷ 5 ∷ 6 ∷ 8 ∷ [] })
          registered_world
        ≡ ok (
          tt,
          relayed program_id
              (request_remove_insurance_fund_stake_bytes ++ (5 ∷ 6 ∷ le_bytes 8 1000))
              (Event.drift
                (withdrawn (record { authority = 9; program_id = program_id; amount = 1000 }))),
        ))
    × (CurrentValue.process (caller ∷ (holding (zeros 112) ∷ [])) registered_world
        ≡ ok (
          tt,
          relayed id (le_bytes 8 0) (
              Event.drift
                (valued (record { authority = 9; program_id = program_id; current_value = 0 }))),
        ))
unfolding le_bytes from_le_bytes
drift_is_standard_example =
    drift_is_standard echoing caller (holding (zeros 112) ∷ []) 1000 (1 ∷ 5 ∷ 6 ∷ 8 ∷ [])
      registered_world (ground arith, zeros-IsByte 112)

-- Selector 2 of the withdrawal: the discriminator and the market index.
removal_run :
    Withdraw.process echoing
      (caller ∷ (holding (zeros 112) ∷ []))
      (record { amount = 1000; extra_data = 2 ∷ 5 ∷ 6 ∷ [] })
      registered_world
    ≡ ok (
      tt,
      relayed program_id
          (128 ∷ 166 ∷ 142 ∷ 9 ∷ 254 ∷ 187 ∷ 143 ∷ 174 ∷ 5 ∷ 6 ∷ [])
          (Event.drift (withdrawn (record { authority = 9; program_id = program_id; amount = 0 }))),
    )
unfolding Withdraw.process
removal_run = refl
