-- ===== src/Dispatcher/Outcomes/Checks.antt =====
-- Decision tables: checks in their order, each with the error that it gives.
use solana_yield_adapter_sta.Prelude.{
  ⊤, Bool, true, false, Option, some, none, List, [], ◌∷◌, ◌++◌, ◌==◌, leb, ℕ, not, is_some, length,
  ◌||◌, ◌≡◌, inl, inr, arith, Option-cases,
}
use solana_yield_adapter_sta.Types.{
  Error, anchor, dispatcher, account_not_signer, account_not_initialized,
  account_owned_by_wrong_program, account_discriminator_not_found, account_discriminator_mismatch,
  account_borrow_failed, constraint_mut, constraint_seeds, account_already_in_use,
  privilege_escalation,
}
use solana_yield_adapter_sta.Types.Dispatcher.{
  Adapter, Registry, adapter, registry, inactive, invalid_status,
}
use solana_yield_adapter_sta.Solana.Accounts.{Pubkey, AccountInfo}
use solana_yield_adapter_sta.Solana.Anchor.{Chain, load_error}
use solana_yield_adapter_sta.Solana.Result.{Result, ok, err}
use solana_yield_adapter_sta.Solana.World.{World}
use solana_yield_adapter_sta.Dispatcher.State.{id, adapter_seeds}

-- The bytes of an account's data.
abbrev stored : Option (List ℕ) → ℕ
stored none = 0
stored (some bytes) = length bytes

abbrev pub Check : Type 0
Check = Bool × Error

-- The error of the first check that fails, or else the result.
abbrev pub guarded : {A : Type 0} → List Check → Result A → Result A
guarded [] r = r
guarded ((true, e) ∷ checks) r = guarded checks r
guarded ((false, e) ∷ checks) r = err e

-- What follows a call that has returned.
abbrev pub logging : (World → World) → Result (⊤ × World) → Result (⊤ × World)
logging log (ok (_, w₁)) = ok (tt, log w₁)
logging log (err e) = err e

-- The error of loading an account that holds neither an adapter nor a registry.
abbrev pub unheld : {A : Type 0} → AccountInfo → Result A
unheld info =
    guarded
      ((not (info.owner == 0) || not (info.lamports == 0), anchor account_not_initialized)
        ∷ (info.owner == id, anchor account_owned_by_wrong_program)
        ∷ (is_some info.borrow, anchor account_borrow_failed)
        ∷ (leb 8 (stored info.borrow), anchor account_discriminator_not_found)
        ∷ [])
      (err (anchor account_discriminator_mismatch))

pub load_error-eq-unheld :
    {A : Type 0} (info : AccountInfo) → err (load_error id info) ≡ unheld {A = A} info
unfolding load_error
load_error-eq-unheld info = elim (Option-cases info.borrow) [
  | inl e ↦ ground arith
  | inr (bytes, e) ↦ ground arith
]

-- The adapter that an account holds.
abbrev pub with_adapter : {A : Type 0} → World → AccountInfo → (Adapter → Result A) → Result A
with_adapter w info k = elim (w.accounts info.key) [
  | some (adapter a) ↦ k a
  | some (registry r) ↦ err (anchor account_discriminator_mismatch)
  | none ↦ unheld info
]

-- The registry that an account holds.
abbrev pub with_registry : {A : Type 0} → World → AccountInfo → (Registry → Result A) → Result A
with_registry w info k = elim (w.accounts info.key) [
  | some (registry r) ↦ k r
  | some (adapter a) ↦ err (anchor account_discriminator_mismatch)
  | none ↦ unheld info
]

-- Whether the seeds and the bump derive the address.
abbrev pub derives : Chain → List (List ℕ) → ℕ → Pubkey → Bool
derives c seeds bump key = elim (c.create_program_address (seeds ++ ((bump ∷ []) ∷ [])) id) [
  | some k ↦ key == k
  | none ↦ false
]

abbrev pub at_its_address : Chain → Adapter → Pubkey → Bool
at_its_address c a key = derives c (adapter_seeds a.program_id a.authority) a.bump key

-- A new account of `space` bytes is made at the address of the seeds, where none may stand.
abbrev pub created :
    {A : Type 0}
    → Chain
    → World
    → AccountInfo
    → ℕ
    → List (List ℕ)
    → AccountInfo
    → Result A
    → Result A
created c w payer space seeds info r =
    guarded ((info.key == (c.find_program_address seeds id).0, anchor constraint_seeds) ∷ [])
      (elim (w.accounts info.key) [
        | some x ↦
            guarded ((info.is_writable, anchor privilege_escalation) ∷ [])
              (err (anchor account_already_in_use))
        | none ↦ elim (c.create_account payer info space) [
          | ok _ ↦ guarded ((info.is_writable, anchor constraint_mut) ∷ []) r
          | err e ↦ err e
        ]
      ])

abbrev pub signs : AccountInfo → List Check
signs caller = (caller.is_signer, anchor account_not_signer) ∷ []

-- What stands between a loaded adapter and a call of its program.
abbrev pub routable : Chain → AccountInfo → AccountInfo → Adapter → List Check
routable c caller info a =
    (caller.is_writable, anchor constraint_mut)
    ∷ (at_its_address c a info.key, anchor constraint_seeds)
    ∷ (leb a.status 2, dispatcher invalid_status)
    ∷ (a.status == 0, dispatcher inactive)
    ∷ []
