-- ===== src/Integration/Routed/Withdrawals.antt =====
-- A withdrawal from the dispatcher's handler through an adapter into its protocol.
use solana_yield_adapter_sta.Prelude.{
  ℕ, ◌≡◌, ◌≤◌, ◌<◌, ◌^◌, ◌∙◌, inl, inr, arith, length, List, ◌∷◌, ◌++◌, map,
}
use solana_yield_adapter_sta.Types.Dispatcher.{Adapter}
use solana_yield_adapter_sta.Interface.{
  WithdrawArgs, from_u8, is_active, adapter_withdraw_discriminator,
}
use solana_yield_adapter_sta.Solana.Accounts.{AccountInfo}
use solana_yield_adapter_sta.Solana.Result.{Result, ok, Result-cases}
use solana_yield_adapter_sta.Solana.World.{World, Invoke}
use solana_yield_adapter_sta.Dispatcher.Withdraw
use solana_yield_adapter_sta.Dispatcher.Routing.Withdrawals
use solana_yield_adapter_sta.Dispatcher.Routing.Wire.{borsh, WithdrawLayout}
use solana_yield_adapter_sta.Dispatcher.Outcomes.Checks.{logging}
use solana_yield_adapter_sta.Adapters.Venue.{Venue, standard}
use solana_yield_adapter_sta.Integration.Deployment.{IsDeployed}
use solana_yield_adapter_sta.Integration.Routed.Seen.{seen, cleared, withdrawn, transfer-withdrawn}

module _ (invoke : Invoke) (v : Venue) (a : Adapter)
    (on_chain : IsDeployed invoke a.program_id (standard v)) (active : a.status ≡ 0)
    (caller : AccountInfo) (remaining : List AccountInfo) (amount : ℕ) (extra_data : List ℕ)
    (w : World) (wide : amount < 2 ^ 64) (short : length extra_data ≤ 64) where
  -- A withdrawal of an amount below 2^64 with at most 64 bytes of extra data through an active
  -- adapter, whichever of the five it is, in all its outcomes, where the adapter is deployed under
  -- the registered key and Borsh encodes as documented. Unless some remaining account passes the
  -- caller as writable, it fails with ConstraintMut. Otherwise the adapter's decision on the extra
  -- data is carried out: its refusal is the result, or the protocol is called once on the remaining
  -- accounts, and if it fails so does the withdrawal; if not, the adapter's event and then the
  -- dispatcher's are logged.
  pub routed_withdraw :
      (to_vec : WithdrawArgs → Result (List ℕ))
      → WithdrawLayout to_vec
      → Withdraw.withdraw invoke to_vec
          (record { signer = caller; adapter = a })
          remaining
          (record { amount = amount; extra_data = extra_data })
          w
        ≡ logging
            (Withdrawals.logged
              (record { signer = caller; adapter = a })
              (record { amount = amount; extra_data = extra_data }))
            (withdrawn invoke (standard v) caller remaining amount extra_data w)
  unfolding Withdraw.withdraw from_u8 is_active
  routed_withdraw to_vec layout =
      let args : WithdrawArgs = record { amount = amount; extra_data = extra_data } in
      let bytes : List ℕ = borsh amount extra_data in
      let encoded : to_vec args ≡ ok bytes = layout args wide (omega arith) in
      let called : invoke
            (Withdrawals.sent (record { signer = caller; adapter = a }) remaining bytes)
            (caller ∷ remaining) w
          ≡ withdrawn invoke (standard v) caller remaining amount extra_data w =
        on_chain.runs caller remaining (adapter_withdraw_discriminator ++ bytes) w
        ∙ on_chain.withdraws (map (seen caller remaining) (caller ∷ remaining)) amount extra_data
            (cleared w) wide (omega arith)
        ∙ (standard v).withdraw_lem invoke (map (seen caller remaining) (caller ∷ remaining)) amount
            extra_data (cleared w)
        ∙ transfer-withdrawn invoke (standard v) caller remaining amount extra_data w in
      elim (Result-cases (withdrawn invoke (standard v) caller remaining amount extra_data w)) [
        | inl ((_, w₁), f) ↦ rw f (ground (arith, called ∙ f))
        | inr (x, f) ↦ rw f (ground (arith, called ∙ f))
      ]
