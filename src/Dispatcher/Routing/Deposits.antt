-- ===== src/Dispatcher/Routing/Deposits.antt =====
-- What `deposit` of the dispatcher sends to an adapter
-- (programs/dispatcher/src/instructions/deposit.rs).
use solana_yield_adapter_sta.Prelude.{
  ℕ, ◌≡◌, ◌≤◌, ◌↔◌, inl, inr, Option-cases, arith, length, true, false, List, ◌∷◌, ◌++◌, map,
}
use solana_yield_adapter_sta.Types.{deposit as deposit_event}
use solana_yield_adapter_sta.Interface.{
  DepositArgs, from_u8, is_active, adapter_deposit_discriminator,
}
use solana_yield_adapter_sta.Solana.Accounts.{AccountInfo, Instruction}
use solana_yield_adapter_sta.Solana.Anchor.{Chain, to_meta}
use solana_yield_adapter_sta.Solana.Result.{Result, ok, Result-cases}
use solana_yield_adapter_sta.Solana.World.{World, Invoke}
use solana_yield_adapter_sta.Types.Dispatcher.{Adapter, adapter, registry}
use solana_yield_adapter_sta.Dispatcher.Routing.Gate.{IsAdmitted}
use solana_yield_adapter_sta.Dispatcher.Deposit
use solana_yield_adapter_sta.Dispatcher.Deposit.{Deposit, deposit}

-- The instruction for the registered program: the caller first, a signer that is not writable,
-- then the remaining accounts with their own flags; the discriminator, then the arguments.
abbrev pub sent : Deposit → List AccountInfo → List ℕ → Instruction
sent ctx remaining bytes = record {
  program_id = ctx.adapter.program_id;
  accounts =
      record { pubkey = ctx.signer.key; is_signer = true; is_writable = false }
      ∷ map to_meta remaining;
  bytes = adapter_deposit_discriminator ++ bytes;
}

-- The world after a call that left `w`: one event more.
abbrev pub logged : Deposit → DepositArgs → World → World
logged ctx args w = record w {
  log =
      deposit_event (record {
        authority = ctx.signer.key;
        program_id = ctx.adapter.program_id;
        amount = args.amount;
      })
      ∷ w.log;
}

module _ (invoke : Invoke) (to_vec : DepositArgs → Result (List ℕ)) where
  -- The adapter is active, the extra data is 64 bytes at most, the arguments serialise, and the
  -- adapter program accepts the instruction; nothing else changes the world.
  abbrev pub IsRouted : Deposit → List AccountInfo → DepositArgs → World → World → Type 0
  IsRouted ctx remaining args w w' =
      (ctx.adapter.status ≡ 0)
      × (length args.extra_data ≤ 64)
      × (bytes : List ℕ) × (w₁ : World) × (to_vec args ≡ ok bytes)
      × (invoke (sent ctx remaining bytes) (ctx.signer ∷ remaining) w ≡ ok (tt, w₁))
      × (w' ≡ logged ctx args w₁)

  -- A deposit succeeds exactly when the adapter's status is 0, the extra data has at most 64 bytes,
  -- the arguments serialise and the adapter program, called once with the caller as a read-only
  -- signer in front of the remaining accounts, succeeds; then the event is logged.
  pub deposit-IsRouted :
      (ctx : Deposit) (remaining : List AccountInfo) (args : DepositArgs) (w w' : World)
      → (deposit invoke to_vec ctx remaining args w ≡ ok (tt, w'))
        ↔ IsRouted ctx remaining args w w'
  unfolding deposit from_u8 is_active
  deposit-IsRouted ctx remaining args w w' = (forward, λ r. ground arith)
    where
      forward :
          deposit invoke to_vec ctx remaining args w ≡ ok (tt, w')
          → IsRouted ctx remaining args w w'
      forward h = elim (Result-cases (to_vec args)) [
        | inl (bytes, e) ↦
            elim (Result-cases (invoke (sent ctx remaining bytes) (ctx.signer ∷ remaining) w)) [
              | inl ((_, w₁), f) ↦ (ground arith, ground arith, bytes, w₁, e, f, ground arith)
              | inr (x, f) ↦ absurd (ground arith)
            ]
        | inr (x, e) ↦ absurd (ground arith)
      ]

  -- The whole deposit instruction succeeds exactly when the caller's account is a writable signer,
  -- the second account holds an adapter and stands at the address that the adapter's own program,
  -- authority and bump derive, that adapter is active, the extra data has at most 64 bytes, the
  -- arguments serialise, and the adapter program accepts the instruction; then one event is added
  -- to what the adapter program left.
  pub deposit_process-IsRouted :
      (c : Chain) (caller info : AccountInfo) (remaining : List AccountInfo) (args : DepositArgs)
      (w w' : World)
      → (Deposit.process invoke to_vec c (caller ∷ info ∷ remaining) args w ≡ ok (tt, w')) ↔ (
          (a : Adapter) × IsAdmitted c caller info a w
          × IsRouted (record { signer = caller; adapter = a }) remaining args w w')
  unfolding Deposit.process
  deposit_process-IsRouted c caller info remaining args w w' = (forward, backward)
    where
      forward :
          Deposit.process invoke to_vec c (caller ∷ info ∷ remaining) args w ≡ ok (tt, w')
          → (a : Adapter) × IsAdmitted c caller info a w
            × IsRouted (record { signer = caller; adapter = a }) remaining args w w'
      forward h = elim (Option-cases (w.accounts info.key)) [
        | inl e ↦ absurd (ground arith)
        | inr (registry r, e) ↦ absurd (ground arith)
        | inr (adapter a, e) ↦ (
          a,
          ground arith,
          (deposit-IsRouted (record { signer = caller; adapter = a }) remaining args w w').0
              (ground arith),
        )
      ]

      backward :
          ((a : Adapter) × IsAdmitted c caller info a w
            × IsRouted (record { signer = caller; adapter = a }) remaining args w w')
          → Deposit.process invoke to_vec c (caller ∷ info ∷ remaining) args w ≡ ok (tt, w')
      backward (a, admitted, routed) =
          let run =
            (deposit-IsRouted (record { signer = caller; adapter = a }) remaining args w w').1
              routed in
          ground arith
