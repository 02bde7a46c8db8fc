-- ===== src/Dispatcher/Routing/Withdrawals.antt =====
-- What `withdraw` of the dispatcher sends to an adapter
-- (programs/dispatcher/src/instructions/withdraw.rs).
use solana_yield_adapter_sta.Prelude.{
  ℕ, ◌≡◌, ◌≤◌, ◌↔◌, inl, inr, Option-cases, arith, length, true, false, List, ◌∷◌, ◌++◌, map,
}
use solana_yield_adapter_sta.Types.{withdraw as withdraw_event}
use solana_yield_adapter_sta.Interface.{
  WithdrawArgs, from_u8, is_active, adapter_withdraw_discriminator,
}
use solana_yield_adapter_sta.Solana.Accounts.{AccountInfo, Instruction}
use solana_yield_adapter_sta.Solana.Anchor.{Chain, to_meta}
use solana_yield_adapter_sta.Solana.Result.{Result, ok, Result-cases}
use solana_yield_adapter_sta.Solana.World.{World, Invoke}
use solana_yield_adapter_sta.Types.Dispatcher.{Adapter, adapter, registry}
use solana_yield_adapter_sta.Dispatcher.Routing.Gate.{IsAdmitted}
use solana_yield_adapter_sta.Dispatcher.Withdraw
use solana_yield_adapter_sta.Dispatcher.Withdraw.{Withdraw, withdraw}

-- The instruction for the registered program: the caller first, a signer that is not writable,
-- then the remaining accounts with their own flags; the discriminator, then the arguments.
abbrev pub sent : Withdraw → List AccountInfo → List ℕ → Instruction
sent ctx remaining bytes = record {
  program_id = ctx.adapter.program_id;
  accounts =
      record { pubkey = ctx.signer.key; is_signer = true; is_writable = false }
      ∷ map to_meta remaining;
  bytes = adapter_withdraw_discriminator ++ bytes;
}

-- The world after a call that left `w`: one event more.
abbrev pub logged : Withdraw → WithdrawArgs → World → World
logged ctx args w = record w {
  log =
      withdraw_event (record {
        authority = ctx.signer.key;
        program_id = ctx.adapter.program_id;
        amount = args.amount;
      })
      ∷ w.log;
}

module _ (invoke : Invoke) (to_vec : WithdrawArgs → Result (List ℕ)) where
  -- The adapter is active, the extra data is 64 bytes at most, the arguments serialise, and the
  -- adapter program accepts the instruction; nothing else changes the world.
  abbrev pub IsRouted : Withdraw → List AccountInfo → WithdrawArgs → World → World → Type 0
  IsRouted ctx remaining args w w' =
      (ctx.adapter.status ≡ 0)
      × (length args.extra_data ≤ 64)
      × (bytes : List ℕ) × (w₁ : World) × (to_vec args ≡ ok bytes)
      × (invoke (sent ctx remaining bytes) (ctx.signer ∷ remaining) w ≡ ok (tt, w₁))
      × (w' ≡ logged ctx args w₁)

  -- A withdrawal succeeds exactly when the adapter's status is 0, the extra data has at most 64
  -- bytes, the arguments serialise and the adapter program, called once with the caller as a
  -- read-only signer in front of the remaining accounts, succeeds; then the event is logged.
  pub withdraw-IsRouted :
      (ctx : Withdraw) (remaining : List AccountInfo) (args : WithdrawArgs) (w w' : World)
      → (withdraw invoke to_vec ctx remaining args w ≡ ok (tt, w'))
        ↔ IsRouted ctx remaining args w w'
  unfolding withdraw from_u8 is_active
  withdraw-IsRouted ctx remaining args w w' = (forward, λ r. ground arith)
    where
      forward :
          withdraw invoke to_vec ctx remaining args w ≡ ok (tt, w')
          → IsRouted ctx remaining args w w'
      forward h = elim (Result-cases (to_vec args)) [
        | inl (bytes, e) ↦
            elim (Result-cases (invoke (sent ctx remaining bytes) (ctx.signer ∷ remaining) w)) [
              | inl ((_, w₁), f) ↦ (ground arith, ground arith, bytes, w₁, e, f, ground arith)
              | inr (x, f) ↦ absurd (ground arith)
            ]
        | inr (x, e) ↦ absurd (ground arith)
      ]

  -- The whole withdrawal instruction succeeds exactly when the caller's account is a writable
  -- signer, the second account holds an adapter and stands at the address that the adapter's own
  -- program, authority and bump derive, that adapter is active, the extra data has at most 64
  -- bytes, the arguments serialise, and the adapter program accepts the instruction; then one event
  -- is added to what the adapter program left.
  pub withdraw_process-IsRouted :
      (c : Chain) (caller info : AccountInfo) (remaining : List AccountInfo) (args : WithdrawArgs)
      (w w' : World)
      → (Withdraw.process invoke to_vec c (caller ∷ info ∷ remaining) args w ≡ ok (tt, w')) ↔ (
          (a : Adapter) × IsAdmitted c caller info a w
          × IsRouted (record { signer = caller; adapter = a }) remaining args w w')
  unfolding Withdraw.process
  withdraw_process-IsRouted c caller info remaining args w w' = (forward, backward)
    where
      forward :
          Withdraw.process invoke to_vec c (caller ∷ info ∷ remaining) args w ≡ ok (tt, w')
          → (a : Adapter) × IsAdmitted c caller info a w
            × IsRouted (record { signer = caller; adapter = a }) remaining args w w'
      forward h = elim (Option-cases (w.accounts info.key)) [
        | inl e ↦ absurd (ground arith)
        | inr (registry r, e) ↦ absurd (ground arith)
        | inr (adapter a, e) ↦ (
          a,
          ground arith,
          (withdraw-IsRouted (record { signer = caller; adapter = a }) remaining args w w').0
              (ground arith),
        )
      ]

      backward :
          ((a : Adapter) × IsAdmitted c caller info a w
            × IsRouted (record { signer = caller; adapter = a }) remaining args w w')
          → Withdraw.process invoke to_vec c (caller ∷ info ∷ remaining) args w ≡ ok (tt, w')
      backward (a, admitted, routed) =
          let run =
            (withdraw-IsRouted (record { signer = caller; adapter = a }) remaining args w w').1
              routed in
          ground arith
