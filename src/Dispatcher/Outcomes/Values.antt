-- ===== src/Dispatcher/Outcomes/Values.antt =====
-- Every outcome of `current_value` (programs/dispatcher/src/instructions/current_value.rs).
use solana_yield_adapter_sta.Prelude.{
  ⊤, ◌≡◌, ◌∙◌, ◌==◌, ==→eq, Bool-cases, inl, inr, refl, arith, leb, length, List, [], ◌∷◌, some,
  none, Option-cases, take,
}
use solana_yield_adapter_sta.Prelude.Bytes.{le_bytes, from_le_bytes}
use solana_yield_adapter_sta.Types.{anchor, dispatcher, interface, account_not_enough_keys}
use solana_yield_adapter_sta.Types.Interface.{missing_return_data, invalid_return_data}
use solana_yield_adapter_sta.Types.Dispatcher.{Adapter, adapter, registry, inactive, invalid_status}
use solana_yield_adapter_sta.Interface.{from_u8, is_active, read_return_u64, set_return_u64}
use solana_yield_adapter_sta.Solana.Accounts.{AccountInfo}
use solana_yield_adapter_sta.Solana.Anchor.{Chain}
use solana_yield_adapter_sta.Solana.Result.{Result, ok, err, Result-cases}
use solana_yield_adapter_sta.Solana.World.{World, Invoke}
use solana_yield_adapter_sta.Dispatcher.State.{id}
use solana_yield_adapter_sta.Dispatcher.CurrentValue
use solana_yield_adapter_sta.Dispatcher.Routing.Values.{asked}
use solana_yield_adapter_sta.Dispatcher.Outcomes.Checks.{
  guarded, with_adapter, signs, routable, load_error-eq-unheld,
}

-- The answer that is handed on from what the adapter's program left.
abbrev pub handed : Result (⊤ × World) → Result (⊤ × World)
handed (err e) = err e
handed (ok (_, w₁)) = elim w₁.return_data [
  | none ↦ err (interface missing_return_data)
  | some (program, bytes) ↦
      guarded ((leb 8 (length bytes), interface invalid_return_data) ∷ [])
        (ok (tt, record w₁ { return_data = some (id, le_bytes 8 (from_le_bytes (take 8 bytes))) }))
]

module _ (invoke : Invoke) where
  abbrev queried : CurrentValue.CurrentValue → List AccountInfo → World → Result (⊤ × World)
  queried ctx remaining w = handed (invoke (asked ctx remaining) (ctx.authority ∷ remaining) w)

  abbrev pub value_table : Chain → List AccountInfo → World → Result (⊤ × World)
  value_table c (caller ∷ info ∷ remaining) w = guarded (signs caller) (
      with_adapter w info (λ a.
        guarded (routable c caller info a)
          (queried (record { authority = caller; adapter = a }) remaining w)))
  value_table c (caller ∷ []) w = guarded (signs caller) (err (anchor account_not_enough_keys))
  value_table c [] w = err (anchor account_not_enough_keys)

  querying :
      (a : Adapter) (caller : AccountInfo) (remaining : List AccountInfo) (w : World)
      → a.status ≡ 0
      → CurrentValue.current_value invoke (record { authority = caller; adapter = a }) remaining w
        ≡ queried (record { authority = caller; adapter = a }) remaining w
  unfolding CurrentValue.current_value from_u8 is_active read_return_u64 set_return_u64
  querying a caller remaining w active =
      elim (Result-cases (
        invoke (asked (record { authority = caller; adapter = a }) remaining) (caller ∷ remaining)
          w)) [
            | inr (x, f) ↦ ground arith
            | inl ((_, w₁), f) ↦ elim (Option-cases w₁.return_data) [
              | inl e ↦ ground arith
              | inr ((program, bytes), e) ↦ ground arith
            ]
          ]

  handling :
      (a : Adapter) (caller : AccountInfo) (remaining : List AccountInfo) (w : World)
      → CurrentValue.current_value invoke (record { authority = caller; adapter = a }) remaining w
        ≡ guarded
            ((leb a.status 2, dispatcher invalid_status)
              ∷ (a.status == 0, dispatcher inactive)
              ∷ [])
            (queried (record { authority = caller; adapter = a }) remaining w)
  unfolding CurrentValue.current_value from_u8 is_active
  handling a caller remaining w = elim (Bool-cases (a.status == 0)) [
    | inr f ↦ ground arith
    | inl t ↦
        let active : a.status ≡ 0 = ==→eq _ _ t in
        querying a caller remaining w active ∙ rw active refl
  ]

  -- The whole value query, on every input. Its checks run in this order, and the first that fails
  -- gives the error: there is a first account, the caller signs, there is a second account, it
  -- holds an adapter (if not, the error is AccountDiscriminatorMismatch for a registry, and
  -- otherwise AccountNotInitialized where the system program owns the account and it has no
  -- lamports, AccountOwnedByWrongProgram where another program does, AccountBorrowFailed for data
  -- that is borrowed, AccountDiscriminatorNotFound below eight bytes, or
  -- AccountDiscriminatorMismatch), the caller is writable, the account stands at the adapter's own
  -- address, the status byte is a status, the adapter is active. Past them, an error of the
  -- adapter's program is returned as it is, no return data is MissingReturnData, fewer than eight
  -- bytes of it are InvalidReturnData, and otherwise the number that the first eight spell becomes
  -- the dispatcher's return data.
  pub value_outcome :
      (c : Chain) (accounts : List AccountInfo) (w : World)
      → CurrentValue.process invoke c accounts w ≡ value_table c accounts w
  unfolding CurrentValue.process
  value_outcome c [] w = ground arith
  value_outcome c (x ∷ []) w = ground arith
  value_outcome c (caller ∷ info ∷ remaining) w = elim (Option-cases (w.accounts info.key)) [
    | inl e ↦ ground (arith, load_error-eq-unheld {A = ⊤ × World} info)
    | inr (registry r, e) ↦ ground arith
    | inr (adapter a, e) ↦ ground (arith, handling a caller remaining w)
  ]
