-- ===== src/Integration/Queries.antt =====
-- Value queries through the dispatcher and an adapter. `entry` is the adapter's entry point, which
-- Anchor generates: on the discriminator of `adapter_current_value` it runs that instruction.
use solana_yield_adapter_sta.Prelude.{
  ℕ, ⊤, ◌≡◌, ◌≤◌, ◌<◌, ◌^◌, ◌∙◌, ap, arith, length, true, false, List, ◌∷◌, some, none, map, All,
  length-take, length-drop, take-take, refl, drop, take, sym,
}
use solana_yield_adapter_sta.Prelude.Bytes.{IsByte, le_bytes, from_le_bytes}
use solana_yield_adapter_sta.Types.{Event, anchor, constraint_mut}
use solana_yield_adapter_sta.Types.Dispatcher.{Adapter}
use solana_yield_adapter_sta.Types.Jupiter.{valued}
use solana_yield_adapter_sta.Interface.{adapter_current_value_discriminator, from_u8, is_active}
use solana_yield_adapter_sta.Solana.Accounts.{AccountInfo}
use solana_yield_adapter_sta.Solana.Result.{Result, ok, err}
use solana_yield_adapter_sta.Solana.World.{World, Invoke, Action}
use solana_yield_adapter_sta.Solana.Anchor.{to_meta}
use solana_yield_adapter_sta.Dispatcher.State
use solana_yield_adapter_sta.Dispatcher.CurrentValue
use solana_yield_adapter_sta.Adapters.Answer.{answer, word, le_bytes-word}
use solana_yield_adapter_sta.Adapters.Jupiter
use solana_yield_adapter_sta.Adapters.Jupiter.Values.{jupiter_current_value_cases}
use solana_yield_adapter_sta.Adapters.Drift
use solana_yield_adapter_sta.Adapters.Marginfi
use solana_yield_adapter_sta.Adapters.Maple
use solana_yield_adapter_sta.Dispatcher.Routing.Values.{current_value-IsAnswered}
use solana_yield_adapter_sta.Integration.Calls.{Entry, Runs, grants, merged, metas_of}

-- On the discriminator the entry point runs the instruction `process`.
abbrev Answers : Entry → (List AccountInfo → Action ⊤) → Type 0
Answers entry process =
    (accounts : List AccountInfo) (w : World)
    → entry accounts adapter_current_value_discriminator w ≡ process accounts w

-- The instruction refuses a first account that is a signer and not writable.
abbrev RefusesReadonly : (List AccountInfo → Action ⊤) → Type 0
RefusesReadonly process =
    (x : AccountInfo) (xs : List AccountInfo) (w : World)
    → x.is_signer ≡ true
    → x.is_writable ≡ false
    → process (x ∷ xs) w ≡ err (anchor constraint_mut)

-- The adapters whose value query declares its first account `mut`.
pub data Venue : Type 0 where
  drift marginfi : Venue
  maple : (AccountInfo → Result ℕ) → Venue

abbrev pub query : Venue → List AccountInfo → Action ⊤
query drift = Drift.CurrentValue.process
query marginfi = Marginfi.CurrentValue.process
query (maple token_amount) = Maple.CurrentValue.process token_amount

module _ (invoke : Invoke) (entry : Entry) (a : Adapter) (caller : AccountInfo)
    (remaining : List AccountInfo) (w : World) where
  readonly_query :
      (process : List AccountInfo → Action ⊤)
      → RefusesReadonly process
      → Runs invoke a.program_id entry
      → Answers entry process
      → a.status ≡ 0
      → grants (λ m. m.is_writable) caller.key (map to_meta remaining) ≡ false
      → CurrentValue.current_value invoke (record { authority = caller; adapter = a }) remaining w
        ≡ err (anchor constraint_mut)
  unfolding CurrentValue.current_value from_u8 is_active
  readonly_query process refuses runs answers active readonly =
      let accounts = map (merged (metas_of caller remaining)) (caller ∷ remaining) in
      let called : invoke
            (record {
              program_id = a.program_id;
              accounts = metas_of caller remaining;
              bytes = adapter_current_value_discriminator;
            })
            (caller ∷ remaining) w
          ≡ err (anchor constraint_mut) =
        runs caller remaining adapter_current_value_discriminator w
        ∙ answers accounts (record w { return_data = none })
        ∙ refuses (merged (metas_of caller remaining) caller)
            (map (merged (metas_of caller remaining)) remaining) (record w { return_data = none })
            (ground arith) (ground arith) in
      ground arith

  -- Where the runtime runs the adapter's entry point as documented, and the remaining accounts do
  -- not also pass the caller as writable, a value query through an active Drift, MarginFi or Maple
  -- adapter fails with ConstraintMut: the dispatcher passes the caller read-only, and these
  -- adapters declare it `mut`.
  pub readonly_query_fails :
      (venue : Venue)
      → Runs invoke a.program_id entry
      → Answers entry (query venue)
      → a.status ≡ 0
      → grants (λ m. m.is_writable) caller.key (map to_meta remaining) ≡ false
      → CurrentValue.current_value invoke (record { authority = caller; adapter = a }) remaining w
        ≡ err (anchor constraint_mut)
  unfolding Drift.CurrentValue.process Marginfi.CurrentValue.process Maple.CurrentValue.process
  readonly_query_fails drift runs answers =
      readonly_query (query drift) (λ x xs v s m. ground arith) runs answers
  readonly_query_fails marginfi runs answers =
      readonly_query (query marginfi) (λ x xs v s m. ground arith) runs answers
  readonly_query_fails (maple token_amount) runs answers =
      readonly_query (query (maple token_amount)) (λ x xs v s m. ground arith) runs answers

-- The event of a Jupiter value query.
abbrev jupiter_valued : AccountInfo → List ℕ → Event
jupiter_valued caller bytes = Event.jupiter (
    valued (record {
      authority = caller.key;
      program_id = Jupiter.program_id;
      current_value = from_le_bytes (word bytes 152);
    }))

module _ (invoke : Invoke) (entry : Entry) (a : Adapter) (caller account : AccountInfo)
    (rest : List AccountInfo) (bytes : List ℕ) (w : World) where
  abbrev seen : AccountInfo → AccountInfo
  seen = merged (metas_of caller (account ∷ rest))

  abbrev cleared : World
  cleared = record w { return_data = none }

  -- The adapter's instruction, on the accounts that it sees.
  jupiter_answers :
      account.borrow ≡ some bytes
      → All IsByte bytes
      → 160 ≤ length bytes
      → length bytes < 2 ^ 64
      → Jupiter.CurrentValue.process (map seen (caller ∷ account ∷ rest)) cleared
        ≡ ok (tt, answer Jupiter.id (word bytes 152) (jupiter_valued caller bytes) cleared)
  unfolding Jupiter.CurrentValue.process
  jupiter_answers held whole long size =
      let signed : (seen caller).is_signer ≡ true = ground arith in
      let handled =
        (((jupiter_current_value_cases (record { authority = seen caller })
                (map seen (account ∷ rest)) cleared).1
              (seen account) (map seen rest) refl).1
            bytes held size).1
          whole long in
      rw signed handled

  -- Where the runtime runs the adapter's entry point as documented, a value query through an active
  -- Jupiter adapter succeeds on an account that can be borrowed and has 160 bytes at least (and
  -- fewer than 2^64), with the eight bytes at offset 152 as the dispatcher's return data, just as
  -- they stand in the account, and the adapter's event; nothing else changes.
  jupiter_query :
      Runs invoke a.program_id entry
      → Answers entry Jupiter.CurrentValue.process
      → a.status ≡ 0
      → account.borrow ≡ some bytes
      → All IsByte bytes
      → 160 ≤ length bytes
      → length bytes < 2 ^ 64
      → CurrentValue.current_value invoke
          (record { authority = caller; adapter = a })
          (account ∷ rest)
          w
        ≡ ok (tt, answer State.id (word bytes 152) (jupiter_valued caller bytes) w)
  jupiter_query runs answers active held whole long size =
      let room : 8 ≤ length (drop 152 bytes) = omega (arith, length-drop 152 bytes) in
      let called =
        runs caller (account ∷ rest) adapter_current_value_discriminator w
        ∙ answers (map seen (caller ∷ account ∷ rest)) cleared
        ∙ jupiter_answers held whole long size in
      let relayed : le_bytes 8 (from_le_bytes (take 8 (word bytes 152))) ≡ word bytes 152 =
        ap (λ xs. le_bytes 8 (from_le_bytes xs)) (take-take 8 8 (drop 152 bytes) (omega arith))
        ∙ le_bytes-word bytes 152 whole long in
      (current_value-IsAnswered invoke (record { authority = caller; adapter = a }) (account ∷ rest)
          w (answer State.id (word bytes 152) (jupiter_valued caller bytes) w)).1
        (
          active,
          answer Jupiter.id (word bytes 152) (jupiter_valued caller bytes) cleared,
          Jupiter.id,
          word bytes 152,
          called,
          refl,
          omega (arith, length-take 8 (drop 152 bytes) room),
          ap (λ xs. answer State.id xs (jupiter_valued caller bytes) w) (sym relayed),
        )
