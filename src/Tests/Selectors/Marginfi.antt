-- ===== src/Tests/Selectors/Marginfi.antt =====
-- The MarginFi adapter at concrete calls.
use solana_yield_adapter_sta.Prelude.{◌≡◌, refl, arith, [], ◌∷◌, ◌++◌}
use solana_yield_adapter_sta.Prelude.Bytes.{le_bytes, from_le_bytes}
use solana_yield_adapter_sta.Types.{Event}
use solana_yield_adapter_sta.Types.Marginfi.{deposited, withdrawn, valued}
use solana_yield_adapter_sta.Solana.Result.{ok}
use solana_yield_adapter_sta.Adapters.Marginfi.{
  program_id, id, lending_account_deposit_discriminator, lending_account_withdraw_discriminator,
}
use solana_yield_adapter_sta.Adapters.Marginfi.Deposit
use solana_yield_adapter_sta.Adapters.Marginfi.Withdraw
use solana_yield_adapter_sta.Adapters.Marginfi.CurrentValue
use solana_yield_adapter_sta.Adapters.Marginfi.Standard.{marginfi_is_standard}
use solana_yield_adapter_sta.Adapters.Marginfi.Truncation.{marginfi_value_truncated}
use solana_yield_adapter_sta.Tests.Fixtures.{
  caller, registered_world, echoing, relayed, holding, zeros, zeros-IsByte,
}

marginfi_is_standard_example :
    (Deposit.process echoing
        (caller ∷ (holding (zeros 56) ∷ []))
        (record { amount = 1000; extra_data = 0 ∷ 8 ∷ [] })
        registered_world
      ≡ ok (
        tt,
        relayed program_id
            (lending_account_deposit_discriminator ++ (le_bytes 8 1000 ++ (8 ∷ [])))
            (Event.marginfi
              (deposited (record { authority = 9; program_id = program_id; amount = 1000 }))),
      ))
    × (Withdraw.process echoing
          (caller ∷ (holding (zeros 56) ∷ []))
          (record { amount = 1000; extra_data = 0 ∷ 8 ∷ [] })
          registered_world
        ≡ ok (
          tt,
          relayed program_id
              (lending_account_withdraw_discriminator ++ (le_bytes 8 1000 ++ (8 ∷ [])))
              (Event.marginfi
                (withdrawn (record { authority = 9; program_id = program_id; amount = 1000 }))),
        ))
    × (CurrentValue.process (caller ∷ (holding (zeros 56) ∷ [])) registered_world
        ≡ ok (
          tt,
          relayed id (le_bytes 8 0) (
              Event.marginfi
                (valued (record { authority = 9; program_id = program_id; current_value = 0 }))),
        ))
unfolding le_bytes from_le_bytes
marginfi_is_standard_example =
    marginfi_is_standard echoing caller (holding (zeros 56) ∷ []) 1000 (0 ∷ 8 ∷ []) registered_world
      (ground arith, zeros-IsByte 56)

-- The shares are 2^64 + 5.
marginfi_value_truncated_example :
    CurrentValue.adapter_current_value
      (record { authority = caller })
      (holding (zeros 40 ++ (le_bytes 16 18_446_744_073_709_551_621 ++ [])) ∷ [])
      registered_world
    ≡ ok (
      tt,
      relayed id (le_bytes 8 5) (
          Event.marginfi
            (valued (record { authority = 9; program_id = program_id; current_value = 5 }))),
    )
unfolding le_bytes
marginfi_value_truncated_example =
    marginfi_value_truncated (record { authority = caller })
      (holding (zeros 40 ++ (le_bytes 16 18_446_744_073_709_551_621 ++ []))) [] registered_world
      18_446_744_073_709_551_621 (zeros 40) [] refl refl (ground arith) (ground arith)
