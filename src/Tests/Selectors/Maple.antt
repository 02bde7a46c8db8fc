-- ===== src/Tests/Selectors/Maple.antt =====
-- The Maple adapter at concrete calls.
use solana_yield_adapter_sta.Prelude.{◌≡◌, [], ◌∷◌, ◌++◌}
use solana_yield_adapter_sta.Prelude.Bytes.{le_bytes}
use solana_yield_adapter_sta.Types.{Event}
use solana_yield_adapter_sta.Types.Maple.{deposited, withdrawn, valued}
use solana_yield_adapter_sta.Solana.Result.{ok}
use solana_yield_adapter_sta.Adapters.Maple.{program_id, id, ccip_send_bytes}
use solana_yield_adapter_sta.Adapters.Maple.Deposit
use solana_yield_adapter_sta.Adapters.Maple.Withdraw
use solana_yield_adapter_sta.Adapters.Maple.CurrentValue
use solana_yield_adapter_sta.Adapters.Maple.Standard.{maple_is_standard}
use solana_yield_adapter_sta.Tests.Fixtures.{caller, registered_world, echoing, relayed, copies}

maple_is_standard_example :
    (Deposit.process echoing
        (caller ∷ (copies 18 caller))
        (record { amount = 1000; extra_data = 0 ∷ 8 ∷ [] })
        registered_world
      ≡ ok (
        tt,
        relayed program_id (ccip_send_bytes ++ (8 ∷ [])) (
            Event.maple
              (deposited (record { authority = 9; program_id = program_id; amount = 1000 }))),
      ))
    × (Withdraw.process echoing
          (caller ∷ (copies 18 caller))
          (record { amount = 1000; extra_data = 0 ∷ 8 ∷ [] })
          registered_world
        ≡ ok (
          tt,
          relayed program_id (ccip_send_bytes ++ (8 ∷ [])) (
              Event.maple
                (withdrawn (record { authority = 9; program_id = program_id; amount = 1000 }))),
        ))
    × (CurrentValue.process (λ a. ok 42) (caller ∷ (copies 18 caller)) registered_world
        ≡ ok (
          tt,
          relayed id (le_bytes 8 42) (
              Event.maple
                (valued (record { authority = 9; program_id = program_id; current_value = 42 }))),
        ))
maple_is_standard_example =
    maple_is_standard (λ a. ok 42) echoing caller (copies 18 caller) 1000 (0 ∷ 8 ∷ [])
      registered_world
