-- ===== src/Integration/Limits.antt =====
-- The messages of the Maple adapter (programs/maple-adapter/src/lib.rs: behind the selector stand
-- the serialized `CcipSendInstructionArgs`, with the token amounts) against the dispatcher's limit
-- on extra data. In Chainlink's type a token amount is a key and a `u64`, and beside it stands the
-- key of the fee token: 72 bytes, more than fit.
use solana_yield_adapter_sta.Prelude.{ℕ, ◌≡◌, ◌≤◌, ◌∙◌, arith, true, length, List, ◌∷◌, ◌++◌}
use solana_yield_adapter_sta.Types.{dispatcher}
use solana_yield_adapter_sta.Types.Dispatcher.{Adapter, overflow}
use solana_yield_adapter_sta.Interface.{DepositArgs, WithdrawArgs}
use solana_yield_adapter_sta.Solana.Accounts.{AccountInfo}
use solana_yield_adapter_sta.Solana.Result.{Result, err}
use solana_yield_adapter_sta.Solana.World.{World, Invoke}
use solana_yield_adapter_sta.Dispatcher.Deposit
use solana_yield_adapter_sta.Dispatcher.Withdraw
use solana_yield_adapter_sta.Dispatcher.Routing.Rejections.{oversized_rejections}
use solana_yield_adapter_sta.Adapters.Relay.{relay}
use solana_yield_adapter_sta.Adapters.Maple
use solana_yield_adapter_sta.Adapters.Maple.Standard.{deposit, withdraw, deposit_lem, withdraw_lem}
use solana_yield_adapter_sta.Adapters.Maple.Deposits
use solana_yield_adapter_sta.Adapters.Maple.Withdrawals

module _ (invoke : Invoke) (deposit_to_vec : DepositArgs → Result (List ℕ))
    (withdraw_to_vec : WithdrawArgs → Result (List ℕ)) (a : Adapter)
    (caller x y z fourth : AccountInfo) (others : List AccountInfo) (amount : ℕ) (message : List ℕ)
    (w : World) where
  abbrev accounts : List AccountInfo
  accounts = x ∷ y ∷ z ∷ fourth ∷ others

  -- A message of 64 bytes or more, with selector 0, from a caller that is a writable signer, stands
  -- fourth among the remaining accounts as a signer and passes 18 of them at least: the Maple
  -- adapter itself hands it to the router, in a deposit and in a withdrawal, but through the
  -- dispatcher and an active adapter both fail with Overflow, whatever any program would do.
  pub maple_messages_refused :
      a.status ≡ 0
      → 64 ≤ length message
      → caller.is_signer ≡ true
      → caller.is_writable ≡ true
      → fourth.key ≡ caller.key
      → fourth.is_signer ≡ true
      → 14 ≤ length others
      → (deposit invoke (caller ∷ accounts) amount (0 ∷ message) w
          ≡ relay invoke Maple.program_id accounts
              (Maple.ccip_send_bytes ++ message)
              (Deposits.reported caller.key amount)
              w)
        × (withdraw invoke (caller ∷ accounts) amount (0 ∷ message) w
            ≡ relay invoke Maple.program_id accounts
                (Maple.ccip_send_bytes ++ message)
                (Withdrawals.reported caller.key amount)
                w)
        × (Deposit.deposit invoke deposit_to_vec
              (record { signer = caller; adapter = a })
              accounts
              (record { amount = amount; extra_data = 0 ∷ message })
              w
            ≡ err (dispatcher overflow))
        × (Withdraw.withdraw invoke withdraw_to_vec
              (record { signer = caller; adapter = a })
              accounts
              (record { amount = amount; extra_data = 0 ∷ message })
              w
            ≡ err (dispatcher overflow))
  maple_messages_refused active long signed writable same fourth_signed enough =
      let (d, x') =
        oversized_rejections invoke deposit_to_vec withdraw_to_vec a caller accounts
          (record { amount = amount; extra_data = 0 ∷ message })
          (record { amount = amount; extra_data = 0 ∷ message }) w active (omega arith)
          (omega arith) in
      (
        deposit_lem invoke (caller ∷ accounts) amount (0 ∷ message) w ∙ ground arith,
        withdraw_lem invoke (caller ∷ accounts) amount (0 ∷ message) w ∙ ground arith,
        d,
        x',
      )
