-- ===== src/Dispatcher/Routing/Rejections.antt =====
-- When the dispatcher refuses to route, whatever the adapter program would do.
use solana_yield_adapter_sta.Prelude.{ℕ, ◌≢◌, leb, if◌then◌else◌, ◌≡◌, ◌<◌, arith, length, List}
use solana_yield_adapter_sta.Types.{dispatcher, Error}
use solana_yield_adapter_sta.Types.Dispatcher.{Adapter, inactive, overflow, invalid_status}
use solana_yield_adapter_sta.Interface.{DepositArgs, WithdrawArgs, from_u8, is_active}
use solana_yield_adapter_sta.Solana.Accounts.{AccountInfo}
use solana_yield_adapter_sta.Solana.Result.{Result, err}
use solana_yield_adapter_sta.Solana.World.{World, Invoke}
use solana_yield_adapter_sta.Dispatcher.Deposit.{deposit}
use solana_yield_adapter_sta.Dispatcher.Withdraw.{withdraw}
use solana_yield_adapter_sta.Dispatcher.CurrentValue.{current_value}

-- The error for a status other than 0.
abbrev refusal : ℕ → Error
refusal status = if leb status 2 then dispatcher inactive else dispatcher invalid_status

module _ (invoke : Invoke) (deposit_to_vec : DepositArgs → Result (List ℕ))
    (withdraw_to_vec : WithdrawArgs → Result (List ℕ)) (a : Adapter) (caller : AccountInfo)
    (remaining : List AccountInfo) (d : DepositArgs) (x : WithdrawArgs) (w : World) where
  -- For every adapter program, a status byte other than 0 makes all three routing instructions
  -- fail: with Inactive for 1 and 2, and with InvalidStatus for a greater one.
  routing_rejections :
      a.status ≢ 0
      → (deposit invoke deposit_to_vec (record { signer = caller; adapter = a }) remaining d w
          ≡ err (refusal a.status))
        × (withdraw invoke withdraw_to_vec (record { signer = caller; adapter = a }) remaining x w
            ≡ err (refusal a.status))
        × (current_value invoke (record { authority = caller; adapter = a }) remaining w
            ≡ err (refusal a.status))
  unfolding deposit withdraw current_value from_u8 is_active
  routing_rejections h = (ground arith, ground arith, ground arith)

  -- For every adapter program, a deposit and a withdrawal through an active adapter fail with
  -- Overflow when their extra data has more than 64 bytes.
  pub oversized_rejections :
      a.status ≡ 0
      → 64 < length d.extra_data
      → 64 < length x.extra_data
      → (deposit invoke deposit_to_vec (record { signer = caller; adapter = a }) remaining d w
          ≡ err (dispatcher overflow))
        × (withdraw invoke withdraw_to_vec (record { signer = caller; adapter = a }) remaining x w
            ≡ err (dispatcher overflow))
  unfolding deposit withdraw from_u8 is_active
  oversized_rejections active h k = (ground arith, ground arith)
