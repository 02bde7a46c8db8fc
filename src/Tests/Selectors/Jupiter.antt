-- ===== src/Tests/Selectors/Jupiter.antt =====
-- The Jupiter adapter at concrete calls.
use solana_yield_adapter_sta.Prelude.{◌≡◌, arith, [], ◌∷◌, ◌++◌}
use solana_yield_adapter_sta.Prelude.Bytes.{le_bytes, from_le_bytes}
use solana_yield_adapter_sta.Types.{Event}
use solana_yield_adapter_sta.Types.Jupiter.{deposited, withdrawn, valued}
use solana_yield_adapter_sta.Solana.Result.{ok}
use solana_yield_adapter_sta.Adapters.Jupiter.{
  program_id, id, add_liquidity2_bytes, remove_liquidity_bytes,
}
use solana_yield_adapter_sta.Adapters.Jupiter.Deposit
use solana_yield_adapter_sta.Adapters.Jupiter.Withdraw
use solana_yield_adapter_sta.Adapters.Jupiter.CurrentValue
use solana_yield_adapter_sta.Adapters.Jupiter.Standard.{jupiter_is_standard}
use solana_yield_adapter_sta.Tests.Fixtures.{
  caller, registered_world, echoing, relayed, copies, holding, zeros, zeros-IsByte,
}

jupiter_is_standard_example :
    (Deposit.process echoing
        (caller ∷ (copies 14 (holding (zeros 160))))
        (record { amount = 1000; extra_data = 1 ∷ 8 ∷ [] })
        registered_world
      ≡ ok (
        tt,
        relayed program_id (add_liquidity2_bytes ++ (le_bytes 8 1000 ++ (8 ∷ []))) (
            Event.jupiter
              (deposited (record { authority = 9; program_id = program_id; amount = 1000 }))),
      ))
    × (Withdraw.process echoing
          (caller ∷ (copies 14 (holding (zeros 160))))
          (record { amount = 1000; extra_data = 1 ∷ 8 ∷ [] })
          registered_world
        ≡ ok (
          tt,
          relayed program_id (remove_liquidity_bytes ++ (le_bytes 8 1000 ++ (8 ∷ []))) (
              Event.jupiter
                (withdrawn (record { authority = 9; program_id = program_id; amount = 1000 }))),
        ))
    × (CurrentValue.process (caller ∷ (copies 14 (holding (zeros 160)))) registered_world
        ≡ ok (
          tt,
          relayed id (le_bytes 8 0) (
              Event.jupiter
                (valued (record { authority = 9; program_id = program_id; current_value = 0 }))),
        ))
unfolding le_bytes from_le_bytes
jupiter_is_standard_example =
    jupiter_is_standard echoing caller (copies 14 (holding (zeros 160))) 1000 (1 ∷ 8 ∷ [])
      registered_world (ground arith, zeros-IsByte 160)
