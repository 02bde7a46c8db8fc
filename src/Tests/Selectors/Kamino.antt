-- ===== src/Tests/Selectors/Kamino.antt =====
-- The Kamino adapter at concrete calls.
use solana_yield_adapter_sta.Prelude.{◌≡◌, [], ◌∷◌, ◌++◌, some}
use solana_yield_adapter_sta.Prelude.Bytes.{le_bytes}
use solana_yield_adapter_sta.Types.{Event}
use solana_yield_adapter_sta.Types.Kamino.{deposited, withdrawn, valued}
use solana_yield_adapter_sta.Solana.Result.{ok}
use solana_yield_adapter_sta.Adapters.Kamino.{
  program_id, id, deposit_reserve_liquidity_bytes, redeem_reserve_collateral_bytes,
}
use solana_yield_adapter_sta.Adapters.Kamino.Deposit
use solana_yield_adapter_sta.Adapters.Kamino.Withdraw
use solana_yield_adapter_sta.Adapters.Kamino.CurrentValue
use solana_yield_adapter_sta.Adapters.Kamino.Standard.{kamino_is_standard}
use solana_yield_adapter_sta.Tests.Fixtures.{
  caller, registered_world, echoing, relayed, holding, zeros,
}

kamino_is_standard_example :
    (Deposit.process echoing
        (caller ∷ (holding (zeros 8) ∷ []))
        (record { amount = 1000; extra_data = 1 ∷ 8 ∷ [] })
        registered_world
      ≡ ok (
        tt,
        relayed program_id (deposit_reserve_liquidity_bytes ++ le_bytes 8 1000) (
            Event.kamino
              (deposited (record { authority = 9; program_id = program_id; amount = 1000 }))),
      ))
    × (Withdraw.process echoing
          (caller ∷ (holding (zeros 8) ∷ []))
          (record { amount = 1000; extra_data = 1 ∷ 8 ∷ [] })
          registered_world
        ≡ ok (
          tt,
          relayed program_id (redeem_reserve_collateral_bytes ++ (le_bytes 8 1000 ++ (8 ∷ []))) (
              Event.kamino
                (withdrawn (record { authority = 9; program_id = program_id; amount = 1000 }))),
        ))
    × (CurrentValue.process (λ bytes. some 42) (caller ∷ (holding (zeros 8) ∷ [])) registered_world
        ≡ ok (
          tt,
          relayed id (le_bytes 8 42) (
              Event.kamino
                (valued (record { authority = 9; program_id = program_id; current_value = 42 }))),
        ))
kamino_is_standard_example =
    kamino_is_standard (λ bytes. some 42) echoing caller (holding (zeros 8) ∷ []) 1000 (1 ∷ 8 ∷ [])
      registered_world
