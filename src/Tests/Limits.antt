-- ===== src/Tests/Limits.antt =====
-- A message for the Maple adapter, directly and through the dispatcher.
use solana_yield_adapter_sta.Prelude.{◌≡◌, refl, arith, ℕ, List, ◌∷◌, ◌++◌}
use solana_yield_adapter_sta.Types.{Event, dispatcher}
use solana_yield_adapter_sta.Types.Dispatcher.{overflow}
use solana_yield_adapter_sta.Types.Maple.{deposited, withdrawn}
use solana_yield_adapter_sta.Solana.Accounts.{AccountInfo}
use solana_yield_adapter_sta.Solana.Result.{ok, err}
use solana_yield_adapter_sta.Dispatcher.Deposit
use solana_yield_adapter_sta.Dispatcher.Withdraw
use solana_yield_adapter_sta.Adapters.Maple
use solana_yield_adapter_sta.Adapters.Maple.Standard.{deposit, withdraw}
use solana_yield_adapter_sta.Integration.Limits.{maple_messages_refused}
use solana_yield_adapter_sta.Tests.Fixtures.{
  deposit_to_vec, withdraw_to_vec, caller, vault, active_entry, registered_world, echoing, relayed,
  copies, zeros,
}

abbrev accounts : List AccountInfo
accounts = vault ∷ vault ∷ vault ∷ caller ∷ copies 14 vault

abbrev message : List ℕ
message = zeros 72

maple_messages_refused_example :
    (deposit echoing (caller ∷ accounts) 1000 (0 ∷ message) registered_world
      ≡ ok (
        tt,
        relayed Maple.program_id (Maple.ccip_send_bytes ++ message) (
            Event.maple
              (deposited (record { authority = 9; program_id = Maple.program_id; amount = 1000 }))),
      ))
    × (withdraw echoing (caller ∷ accounts) 1000 (0 ∷ message) registered_world
        ≡ ok (
          tt,
          relayed Maple.program_id (Maple.ccip_send_bytes ++ message) (
              Event.maple (
                withdrawn
                  (record { authority = 9; program_id = Maple.program_id; amount = 1000 }))),
        ))
    × (Deposit.deposit echoing deposit_to_vec
          (record { signer = caller; adapter = active_entry })
          accounts
          (record { amount = 1000; extra_data = 0 ∷ message })
          registered_world
        ≡ err (dispatcher overflow))
    × (Withdraw.withdraw echoing withdraw_to_vec
          (record { signer = caller; adapter = active_entry })
          accounts
          (record { amount = 1000; extra_data = 0 ∷ message })
          registered_world
        ≡ err (dispatcher overflow))
maple_messages_refused_example =
    maple_messages_refused echoing deposit_to_vec withdraw_to_vec active_entry caller vault vault
      vault caller (copies 14 vault) 1000 message registered_world refl (ground arith) refl refl
      refl refl (ground arith)
