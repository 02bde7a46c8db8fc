-- ===== src/Dispatcher/Routing/Values.antt =====
-- What `current_value` of the dispatcher asks of an adapter
-- (programs/dispatcher/src/instructions/current_value.rs).
use solana_yield_adapter_sta.Prelude.{
  ℕ, ◌≡◌, ◌≤◌, ◌↔◌, inl, inr, arith, length, true, false, List, ◌∷◌, map, take, some, Option-cases,
}
use solana_yield_adapter_sta.Prelude.Bytes.{le_bytes, from_le_bytes}
use solana_yield_adapter_sta.Interface.{
  from_u8, is_active, adapter_current_value_discriminator, read_return_u64, set_return_u64,
}
use solana_yield_adapter_sta.Solana.Accounts.{AccountInfo, Instruction, Pubkey}
use solana_yield_adapter_sta.Solana.Anchor.{Chain, to_meta}
use solana_yield_adapter_sta.Solana.Result.{ok, Result-cases}
use solana_yield_adapter_sta.Solana.World.{World, Invoke}
use solana_yield_adapter_sta.Dispatcher.State.{id}
use solana_yield_adapter_sta.Types.Dispatcher.{Adapter, adapter, registry}
use solana_yield_adapter_sta.Dispatcher.Routing.Gate.{IsAdmitted}
use solana_yield_adapter_sta.Dispatcher.CurrentValue
use solana_yield_adapter_sta.Dispatcher.CurrentValue.{CurrentValue, current_value}

-- The instruction for the registered program, with no arguments.
abbrev pub asked : CurrentValue → List AccountInfo → Instruction
asked ctx remaining = record {
  program_id = ctx.adapter.program_id;
  accounts =
      record { pubkey = ctx.authority.key; is_signer = true; is_writable = false }
      ∷ map to_meta remaining;
  bytes = adapter_current_value_discriminator;
}

module _ (invoke : Invoke) where
  -- The adapter is active, and after the call there is return data of eight bytes at least; the
  -- dispatcher sets the number that the first eight spell as its own return data.
  abbrev pub IsAnswered : CurrentValue → List AccountInfo → World → World → Type 0
  IsAnswered ctx remaining w w' =
      (ctx.adapter.status ≡ 0)
      × (w₁ : World) × (answerer : Pubkey) × (bytes : List ℕ) × (invoke (asked ctx remaining)
            (ctx.authority ∷ remaining) w
          ≡ ok (tt, w₁))
      × (w₁.return_data ≡ some (answerer, bytes))
      × (8 ≤ length bytes)
      × (w' ≡ record w₁ { return_data = some (id, le_bytes 8 (from_le_bytes (take 8 bytes))) })

  -- A value query succeeds exactly when the adapter's status is 0, the adapter program succeeds
  -- on the call and at least eight bytes of return data are there after it; the dispatcher then
  -- returns the first eight as its own, and changes nothing else.
  pub current_value-IsAnswered :
      (ctx : CurrentValue) (remaining : List AccountInfo) (w w' : World)
      → (current_value invoke ctx remaining w ≡ ok (tt, w')) ↔ IsAnswered ctx remaining w w'
  unfolding current_value from_u8 is_active read_return_u64 set_return_u64
  current_value-IsAnswered ctx remaining w w' = (forward, λ r. ground arith)
    where
      answered :
          (w₁ : World)
          → invoke (asked ctx remaining) (ctx.authority ∷ remaining) w ≡ ok (tt, w₁)
          → current_value invoke ctx remaining w ≡ ok (tt, w')
          → IsAnswered ctx remaining w w'
      answered w₁ f h = elim (Option-cases w₁.return_data) [
        | inl e ↦ absurd (ground arith)
        | inr ((k, bytes), e) ↦ (ground arith, w₁, k, bytes, f, e, ground arith, ground arith)
      ]

      forward : current_value invoke ctx remaining w ≡ ok (tt, w') → IsAnswered ctx remaining w w'
      forward h = elim (Result-cases (invoke (asked ctx remaining) (ctx.authority ∷ remaining) w)) [
        | inl ((_, w₁), f) ↦ answered w₁ f h
        | inr (x, f) ↦ absurd (ground arith)
      ]

  -- The whole value query succeeds exactly when the caller's account is a writable signer, the
  -- second account holds an adapter and stands at the address that the adapter's own program,
  -- authority and bump derive, that adapter is active, the adapter program accepts the call, and
  -- at least eight bytes of return data are there after it; the dispatcher's own return data is
  -- then the number that the first eight of them spell.
  pub current_value_process-IsAnswered :
      (c : Chain) (caller info : AccountInfo) (remaining : List AccountInfo) (w w' : World)
      → (CurrentValue.process invoke c (caller ∷ info ∷ remaining) w ≡ ok (tt, w')) ↔ (
          (a : Adapter) × IsAdmitted c caller info a w
          × IsAnswered (record { authority = caller; adapter = a }) remaining w w')
  unfolding CurrentValue.process
  current_value_process-IsAnswered c caller info remaining w w' = (forward, backward)
    where
      forward :
          CurrentValue.process invoke c (caller ∷ info ∷ remaining) w ≡ ok (tt, w')
          → (a : Adapter) × IsAdmitted c caller info a w
            × IsAnswered (record { authority = caller; adapter = a }) remaining w w'
      forward h = elim (Option-cases (w.accounts info.key)) [
        | inl e ↦ absurd (ground arith)
        | inr (registry r, e) ↦ absurd (ground arith)
        | inr (adapter a, e) ↦ (
          a,
          ground arith,
          (current_value-IsAnswered (record { authority = caller; adapter = a }) remaining w w').0
              (ground arith),
        )
      ]

      backward :
          ((a : Adapter) × IsAdmitted c caller info a w
            × IsAnswered (record { authority = caller; adapter = a }) remaining w w')
          → CurrentValue.process invoke c (caller ∷ info ∷ remaining) w ≡ ok (tt, w')
      backward (a, admitted, routed) =
          let run =
            (current_value-IsAnswered (record { authority = caller; adapter = a }) remaining w w').1
              routed in
          ground arith
