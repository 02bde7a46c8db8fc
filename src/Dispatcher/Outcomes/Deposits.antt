-- ===== src/Dispatcher/Outcomes/Deposits.antt =====
-- Every outcome of `deposit` (programs/dispatcher/src/instructions/deposit.rs).
use solana_yield_adapter_sta.Prelude.{
  ℕ, ⊤, ◌≡◌, ◌∙◌, ◌==◌, ==→eq, Bool-cases, inl, inr, refl, arith, leb, length, true, List, [], ◌∷◌,
  ◌++◌, Option-cases,
}
use solana_yield_adapter_sta.Types.{anchor, dispatcher, account_not_enough_keys}
use solana_yield_adapter_sta.Types.Dispatcher.{
  Adapter, adapter, registry, overflow, inactive, invalid_status,
}
use solana_yield_adapter_sta.Interface.{DepositArgs, from_u8, is_active}
use solana_yield_adapter_sta.Solana.Accounts.{AccountInfo}
use solana_yield_adapter_sta.Solana.Anchor.{Chain}
use solana_yield_adapter_sta.Solana.Result.{Result, ok, err, Result-cases}
use solana_yield_adapter_sta.Solana.World.{World, Invoke}
use solana_yield_adapter_sta.Dispatcher.Deposit
use solana_yield_adapter_sta.Dispatcher.Routing.Deposits.{sent, logged}
use solana_yield_adapter_sta.Dispatcher.Outcomes.Checks.{
  guarded, logging, with_adapter, signs, routable, load_error-eq-unheld,
}

module _ (invoke : Invoke) (to_vec : DepositArgs → Result (List ℕ)) where
  -- The call of the adapter's program, once the checks have passed.
  abbrev pub delivered :
      Deposit.Deposit → List AccountInfo → DepositArgs → World → Result (⊤ × World)
  delivered ctx remaining args w = elim (to_vec args) [
    | ok bytes ↦
        logging (logged ctx args) (invoke (sent ctx remaining bytes) (ctx.signer ∷ remaining) w)
    | err e ↦ err e
  ]

  abbrev pub deposit_table : Chain → List AccountInfo → DepositArgs → World → Result (⊤ × World)
  deposit_table c (caller ∷ info ∷ remaining) args w = guarded (signs caller) (
      with_adapter w info (λ a.
        guarded
          (routable c caller info a
            ++ ((leb (length args.extra_data) 64, dispatcher overflow) ∷ []))
          (delivered (record { signer = caller; adapter = a }) remaining args w)))
  deposit_table c (caller ∷ []) args w =
      guarded (signs caller) (err (anchor account_not_enough_keys))
  deposit_table c [] args w = err (anchor account_not_enough_keys)

  delivering :
      (a : Adapter) (caller : AccountInfo) (remaining : List AccountInfo) (args : DepositArgs)
      (w : World)
      → a.status ≡ 0
      → leb (length args.extra_data) 64 ≡ true
      → Deposit.deposit invoke to_vec (record { signer = caller; adapter = a }) remaining args w
        ≡ delivered (record { signer = caller; adapter = a }) remaining args w
  unfolding Deposit.deposit from_u8 is_active
  delivering a caller remaining args w active short = elim (Result-cases (to_vec args)) [
    | inr (x, e) ↦ ground arith
    | inl (bytes, e) ↦
        elim (Result-cases (
          invoke (sent (record { signer = caller; adapter = a }) remaining bytes)
            (caller ∷ remaining) w)) [ inl ((_, w₁), f) ↦ ground arith | inr (x, f) ↦ ground arith ]
  ]

  handling :
      (a : Adapter) (caller : AccountInfo) (remaining : List AccountInfo) (args : DepositArgs)
      (w : World)
      → Deposit.deposit invoke to_vec (record { signer = caller; adapter = a }) remaining args w
        ≡ guarded
            ((leb a.status 2, dispatcher invalid_status)
              ∷ (a.status == 0, dispatcher inactive)
              ∷ (leb (length args.extra_data) 64, dispatcher overflow)
              ∷ [])
            (delivered (record { signer = caller; adapter = a }) remaining args w)
  unfolding Deposit.deposit from_u8 is_active
  handling a caller remaining args w = elim (Bool-cases (a.status == 0)) [
    | inr f ↦ ground arith
    | inl t ↦ elim (Bool-cases (leb (length args.extra_data) 64)) [
      | inr f ↦ ground arith
      | inl l ↦
          let active : a.status ≡ 0 = ==→eq _ _ t in
          delivering a caller remaining args w active l ∙ rw (active, l) refl
    ]
  ]

  -- The whole deposit instruction, on every input. Its checks run in this order, and the first that
  -- fails gives the error: there is a first account, the caller signs, there is a second account,
  -- it holds an adapter (if not, the error is AccountDiscriminatorMismatch for a registry, and
  -- otherwise AccountNotInitialized where the system program owns the account and it has no
  -- lamports, AccountOwnedByWrongProgram where another program does, AccountBorrowFailed for data
  -- that is borrowed, AccountDiscriminatorNotFound below eight bytes, or
  -- AccountDiscriminatorMismatch), the caller is writable, the account stands at the adapter's own
  -- address, the status byte is a status, the adapter is active, the extra data has at most 64
  -- bytes. Past them, an error of serialising or of the adapter's program is returned as it is, and
  -- otherwise one event is added to the world that the program left.
  pub deposit_outcome :
      (c : Chain) (accounts : List AccountInfo) (args : DepositArgs) (w : World)
      → Deposit.process invoke to_vec c accounts args w ≡ deposit_table c accounts args w
  unfolding Deposit.process
  deposit_outcome c [] args w = ground arith
  deposit_outcome c (x ∷ []) args w = ground arith
  deposit_outcome c (caller ∷ info ∷ remaining) args w = elim (Option-cases (w.accounts info.key)) [
    | inl e ↦ ground (arith, load_error-eq-unheld {A = ⊤ × World} info)
    | inr (registry r, e) ↦ ground arith
    | inr (adapter a, e) ↦ ground (arith, handling a caller remaining args w)
  ]
