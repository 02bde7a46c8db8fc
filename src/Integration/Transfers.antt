-- ===== src/Integration/Transfers.antt =====
-- A deposit through the dispatcher and the Kamino adapter into the lending program. `entry` is the
-- adapter's entry point and `decode` the deserialisation of its arguments, which Anchor generates.
use solana_yield_adapter_sta.Prelude.{
  ℕ, ⊤, ◌≡◌, ◌≢◌, ◌<◌, ◌^◌, ◌∙◌, refl, inl, inr, arith, length, true, List, ◌∷◌, ◌++◌, Option, some,
  none, map,
}
use solana_yield_adapter_sta.Types.{Event}
use solana_yield_adapter_sta.Types.Dispatcher.{Adapter}
use solana_yield_adapter_sta.Types.Kamino.{deposited}
use solana_yield_adapter_sta.Interface.{
  DepositArgs, adapter_deposit_discriminator, from_u8, is_active,
}
use solana_yield_adapter_sta.Solana.Accounts.{AccountInfo}
use solana_yield_adapter_sta.Solana.Anchor.{to_meta}
use solana_yield_adapter_sta.Solana.Result.{Result, ok, err, Result-cases}
use solana_yield_adapter_sta.Solana.World.{World, Invoke, Action}
use solana_yield_adapter_sta.Dispatcher.Deposit
use solana_yield_adapter_sta.Dispatcher.Routing.Deposits.{sent, logged}
use solana_yield_adapter_sta.Dispatcher.Routing.Wire.{borsh, DepositLayout}
use solana_yield_adapter_sta.Adapters.Relay.{relay}
use solana_yield_adapter_sta.Adapters.Kamino
use solana_yield_adapter_sta.Adapters.Kamino.Deposit.{AdapterDepositArgs}
use solana_yield_adapter_sta.Adapters.Kamino.Deposits.{deposit_bytes, selected}
use solana_yield_adapter_sta.Integration.Calls.{Entry, Runs, grants, merged, metas_of}

-- On the discriminator and bytes that decode, the entry point runs the instruction `process`.
abbrev pub Deposits :
    Entry
    → (List ℕ → Option AdapterDepositArgs)
    → (List AccountInfo → AdapterDepositArgs → Action ⊤)
    → Type 0
Deposits entry decode process =
    (accounts : List AccountInfo) (bytes : List ℕ) (args : AdapterDepositArgs) (w : World)
    → decode bytes ≡ some args
    → entry accounts (adapter_deposit_discriminator ++ bytes) w ≡ process accounts args w

-- What was encoded is decoded.
abbrev Decodes : (List ℕ → Option AdapterDepositArgs) → Type 0
Decodes decode =
    (amount : ℕ) (extra_data : List ℕ)
    → amount < 2 ^ 64
    → length extra_data < 2 ^ 32
    → decode (borsh amount extra_data) ≡ some (record { amount = amount; extra_data = extra_data })

-- The adapter's event, and what the dispatcher does when the adapter has returned.
abbrev kamino_deposited : AccountInfo → ℕ → Event
kamino_deposited caller amount =
    Event.kamino (
      deposited
        (record { authority = caller.key; program_id = Kamino.program_id; amount = amount }))

abbrev then_logged : Deposit.Deposit → DepositArgs → Result (⊤ × World) → Result (⊤ × World)
then_logged ctx args (ok (_, w₁)) = ok (tt, logged ctx args w₁)
then_logged ctx args (err e) = err e

module _ (invoke : Invoke) (to_vec : DepositArgs → Result (List ℕ)) (entry : Entry)
    (decode : List ℕ → Option AdapterDepositArgs) (a : Adapter) (caller : AccountInfo)
    (remaining : List AccountInfo) (amount selector : ℕ) (rest : List ℕ) (w : World) where
  abbrev seen : AccountInfo → AccountInfo
  seen = merged (metas_of caller remaining)

  abbrev cleared : World
  cleared = record w { return_data = none }

  abbrev args : DepositArgs
  args = record { amount = amount; extra_data = selector ∷ rest }

  abbrev ctx : Deposit.Deposit
  ctx = record { signer = caller; adapter = a }

  -- What the lending program is asked for, and the adapter's event.
  abbrev lending_call : Result (⊤ × World)
  lending_call =
      relay invoke Kamino.program_id (map seen remaining) (deposit_bytes selector amount rest)
        (kamino_deposited caller amount) cleared

  adapter_call :
      caller.key ≢ 0
      → selector < 4
      → grants (λ m. m.is_writable) caller.key (map to_meta remaining) ≡ true
      → Kamino.Deposit.process invoke
          (map seen (caller ∷ remaining))
          (record { amount = amount; extra_data = selector ∷ rest })
          cleared
        ≡ lending_call
  unfolding Kamino.Deposit.process
  adapter_call key known granted =
      let signed : (seen caller).is_signer ≡ true = ground arith in
      let writable : (seen caller).is_writable ≡ true = ground arith in
      let handled =
        selected invoke (record { authority = seen caller }) (map seen remaining)
          (record { amount = amount; extra_data = selector ∷ rest }) cleared selector rest key refl
          known in
      rw (signed, writable) handled

  -- Where the runtime, the entry point and the encoding are as documented, the dispatcher's
  -- handling of a deposit of an amount below 2^64 with selector 0 to 3 and fewer than 64 bytes
  -- behind it, through an active Kamino adapter, by a caller with another key than the default that
  -- the remaining accounts also pass as writable, comes to one call of the lending program: on the
  -- remaining accounts, with the selected discriminator and the caller's amount in eight bytes, and
  -- for selector 3 the caller's bytes behind the selector; then the adapter's event and the
  -- dispatcher's are logged, and if the lending program fails, so does the deposit.
  kamino_deposit :
      Runs invoke a.program_id entry
      → Deposits entry decode (Kamino.Deposit.process invoke)
      → Decodes decode
      → DepositLayout to_vec
      → a.status ≡ 0
      → caller.key ≢ 0
      → grants (λ m. m.is_writable) caller.key (map to_meta remaining) ≡ true
      → amount < 2 ^ 64
      → length rest < 64
      → selector < 4
      → Deposit.deposit invoke to_vec ctx remaining args w ≡ then_logged ctx args lending_call
  unfolding Deposit.deposit from_u8 is_active
  kamino_deposit runs enters decodes layout active key granted small short known =
      let bytes : List ℕ = borsh amount (selector ∷ rest) in
      let encoded : to_vec args ≡ ok bytes = layout args small (omega arith) in
      let called : invoke (sent ctx remaining bytes) (caller ∷ remaining) w ≡ lending_call =
        runs caller remaining (adapter_deposit_discriminator ++ bytes) w
        ∙ enters (map seen (caller ∷ remaining)) bytes
            (record { amount = amount; extra_data = selector ∷ rest }) cleared
            (decodes amount (selector ∷ rest) small (omega arith))
        ∙ adapter_call key known granted in
      elim (Result-cases lending_call) [
        | inl ((_, w₁), f) ↦ ground arith
        | inr (x, f) ↦ ground arith
      ]
