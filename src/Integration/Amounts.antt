-- ===== src/Integration/Amounts.antt =====
-- One amount, from the dispatcher's arguments to the protocol's instruction.
use solana_yield_adapter_sta.Prelude.{
  ℕ, ◌≡◌, ◌≤◌, ◌<◌, ◌^◌, ◌∙◌, ap, sym, refl, arith, inl, inr, Bool-cases, length, take, drop, List,
  ◌∷◌, map,
}
use solana_yield_adapter_sta.Prelude.Bytes.{le_bytes}
use solana_yield_adapter_sta.Types.{Event, deposit as deposit_event, withdraw as withdraw_event}
use solana_yield_adapter_sta.Types.Dispatcher.{Adapter}
use solana_yield_adapter_sta.Interface.{DepositArgs, WithdrawArgs}
use solana_yield_adapter_sta.Solana.Accounts.{AccountInfo, Pubkey}
use solana_yield_adapter_sta.Solana.Anchor.{to_meta}
use solana_yield_adapter_sta.Solana.Result.{Result, ok, Result-cases}
use solana_yield_adapter_sta.Solana.World.{World, Invoke}
use solana_yield_adapter_sta.Dispatcher.Deposit
use solana_yield_adapter_sta.Dispatcher.Withdraw
use solana_yield_adapter_sta.Dispatcher.Outcomes.Checks.{logging}
use solana_yield_adapter_sta.Dispatcher.Routing.Wire.{DepositLayout, WithdrawLayout}
use solana_yield_adapter_sta.Adapters.Relay.{Request, refuse, send, perform}
use solana_yield_adapter_sta.Adapters.Amounts.{
  Names, TakesAmountFirst, deposit-AmountFirst, withdraw-AmountFirst,
}
use solana_yield_adapter_sta.Adapters.Venue.{Venue, standard}
use solana_yield_adapter_sta.Integration.Deployment.{IsDeployed}
use solana_yield_adapter_sta.Integration.Routed.Seen.{seen, cleared, caller_writable}
use solana_yield_adapter_sta.Integration.Routed.Deposits.{routed_deposit}
use solana_yield_adapter_sta.Integration.Routed.Withdrawals.{routed_withdraw}

-- The protocol has accepted one instruction whose data names the amount behind its discriminator,
-- and the log of `w'` is what the protocol left and, on top of it, the two events.
abbrev pub Paid : Invoke → Pubkey → List AccountInfo → ℕ → Event → Event → World → World → Type 0
Paid invoke protocol accounts amount event outer w w' =
    (bytes : List ℕ) × (w₁ : World) × (invoke
        (record { program_id = protocol; accounts = map to_meta accounts; bytes = bytes }) accounts
        w
      ≡ ok (tt, w₁))
    × (take 8 (drop 8 bytes) ≡ le_bytes 8 amount)
    × (w'.log ≡ outer ∷ event ∷ w₁.log)

performed :
    (invoke : Invoke) (protocol : Pubkey) (event : ℕ → Event) (accounts : List AccountInfo)
    (amount : ℕ) (r : Request) (outer : Event) (log : World → World)
    (logs : (v : World) → (log v).log ≡ outer ∷ v.log) (w w' : World)
    → Names amount r
    → logging log (perform invoke protocol event accounts r w) ≡ ok (tt, w')
    → Paid invoke protocol accounts amount (event amount) outer w w'
performed invoke protocol event accounts amount (refuse e) outer log logs w w' named h = cc h
performed invoke protocol event accounts amount (send bytes n) outer log logs w w' named h =
    elim (Result-cases (
      invoke (record { program_id = protocol; accounts = map to_meta accounts; bytes = bytes })
        accounts w)) [
          | inr (x, e) ↦ absurd (ground (arith, e))
          | inl ((_, w₁), e) ↦
              let after : w' ≡ log (record w₁ { log = event n ∷ w₁.log }) = ground (arith, e) in
              (
                bytes,
                w₁,
                e,
                named.1,
                ap (λ (v : World). v.log) after
                    ∙ logs (record w₁ { log = event n ∷ w₁.log })
                    ∙ ap (λ m. outer ∷ event m ∷ w₁.log) named.0,
              )
        ]

module _ (invoke : Invoke) (v : Venue) (first : TakesAmountFirst v) (a : Adapter)
    (on_chain : IsDeployed invoke a.program_id (standard v)) (active : a.status ≡ 0)
    (caller : AccountInfo) (remaining : List AccountInfo) (amount : ℕ) (extra_data : List ℕ)
    (w w' : World) (wide : amount < 2 ^ 64) (short : length extra_data ≤ 64) where
  abbrev passed_on : List AccountInfo
  passed_on = map (seen caller remaining) remaining

  -- Through an active adapter of Kamino, MarginFi or Jupiter that is deployed under the registered
  -- key, with Borsh as documented, an amount below 2^64 and at most 64 bytes of extra data: a
  -- deposit that succeeds has called the protocol with an instruction that the protocol
  -- accepted, on the remaining accounts as the adapter sees them, in which the eight bytes behind
  -- the discriminator spell the amount; and the log is what the protocol left with the adapter's
  -- event and then the dispatcher's on top, both with that amount.
  pub deposit-Paid :
      (to_vec : DepositArgs → Result (List ℕ))
      → DepositLayout to_vec
      → Deposit.deposit invoke to_vec
          (record { signer = caller; adapter = a })
          remaining
          (record { amount = amount; extra_data = extra_data })
          w
        ≡ ok (tt, w')
      → Paid invoke
          (standard v).protocol
          passed_on
          amount
          ((standard v).deposited caller.key amount)
          (deposit_event
            (record { authority = caller.key; program_id = a.program_id; amount = amount }))
          (cleared w)
          w'
  deposit-Paid to_vec layout h =
      let routed =
        sym (
          routed_deposit invoke v a on_chain active caller remaining amount extra_data w wide short
            to_vec layout)
        ∙ h in
      elim (Bool-cases (caller_writable caller remaining)) [
        | inr e ↦ absurd (ground arith)
        | inl e ↦
            performed invoke (standard v).protocol ((standard v).deposited caller.key) passed_on
              amount _ _ _ (λ u. refl) (cleared w) w'
              (deposit-AmountFirst v first caller.key passed_on extra_data amount) (rw e at routed)
      ]

  -- Through an active adapter of Kamino, MarginFi or Jupiter that is deployed under the registered
  -- key, with Borsh as documented, an amount below 2^64 and at most 64 bytes of extra data: a
  -- withdrawal that succeeds has called the protocol with an instruction that the protocol
  -- accepted, on the remaining accounts as the adapter sees them, in which the eight bytes behind
  -- the discriminator spell the amount; and the log is what the protocol left with the adapter's
  -- event and then the dispatcher's on top, both with that amount.
  pub withdraw-Paid :
      (to_vec : WithdrawArgs → Result (List ℕ))
      → WithdrawLayout to_vec
      → Withdraw.withdraw invoke to_vec
          (record { signer = caller; adapter = a })
          remaining
          (record { amount = amount; extra_data = extra_data })
          w
        ≡ ok (tt, w')
      → Paid invoke
          (standard v).protocol
          passed_on
          amount
          ((standard v).withdrawn caller.key amount)
          (withdraw_event
            (record { authority = caller.key; program_id = a.program_id; amount = amount }))
          (cleared w)
          w'
  withdraw-Paid to_vec layout h =
      let routed =
        sym (
          routed_withdraw invoke v a on_chain active caller remaining amount extra_data w wide short
            to_vec layout)
        ∙ h in
      elim (Bool-cases (caller_writable caller remaining)) [
        | inr e ↦ absurd (ground arith)
        | inl e ↦
            performed invoke (standard v).protocol ((standard v).withdrawn caller.key) passed_on
              amount _ _ _ (λ u. refl) (cleared w) w'
              (withdraw-AmountFirst v first caller.key passed_on extra_data amount) (rw e at routed)
      ]
