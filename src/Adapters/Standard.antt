-- ===== src/Adapters/Standard.antt =====
-- What the five adapters have in common: the three instructions of the standard
-- (docs/adapter-standard.md), as the dispatcher sees them.
use solana_yield_adapter_sta.Prelude.{
  ℕ, ⊤, ◌≡◌, Bool, true, if◌then◌else◌, ◌&&◌, not, List, [], ◌∷◌,
}
use solana_yield_adapter_sta.Types.{
  Event, anchor, account_not_enough_keys, account_not_signer, constraint_mut,
}
use solana_yield_adapter_sta.Solana.Accounts.{Pubkey, AccountInfo}
use solana_yield_adapter_sta.Solana.Result.{Result, err}
use solana_yield_adapter_sta.Solana.World.{World, Action, Invoke}
use solana_yield_adapter_sta.Adapters.Relay.{Request, perform}
use solana_yield_adapter_sta.Adapters.Answer.{respond, HasData}

-- How a deposit or a withdrawal is decided: by the caller's key, the remaining accounts, the extra
-- data and the amount.
abbrev pub Decision : Type 0
Decision = Pubkey → List AccountInfo → List ℕ → ℕ → Request

-- An instruction whose one account is a signer, `mut` where `writable` says so.
abbrev pub as_signer :
    Bool → List AccountInfo → (AccountInfo → List AccountInfo → Action ⊤) → Action ⊤
as_signer writable [] handle w = err (anchor account_not_enough_keys)
as_signer writable (caller ∷ remaining) handle w =
    if caller.is_signer
    then (if writable && not caller.is_writable
        then err (anchor constraint_mut)
        else handle caller remaining w)
    else err (anchor account_not_signer)

-- A deposit or a withdrawal, by its decision.
abbrev pub transfer :
    Invoke → Pubkey → (Pubkey → ℕ → Event) → Decision → List AccountInfo → ℕ → List ℕ → Action ⊤
transfer invoke protocol event decide accounts amount extra_data =
    as_signer true accounts (λ caller remaining.
      perform invoke protocol (event caller.key) remaining
        (decide caller.key remaining extra_data amount))

-- The three instructions, an independent description of each, and that they follow it. Where a
-- value is read from account data, the data has to be a byte sequence of a `usize` length.
pub record Standard : Type 0 where
  pub protocol : Pubkey
  pub id : Pubkey
  pub deposit : Invoke → List AccountInfo → ℕ → List ℕ → Action ⊤
  pub withdraw : Invoke → List AccountInfo → ℕ → List ℕ → Action ⊤
  pub current_value : List AccountInfo → Action ⊤
  pub deposited : Pubkey → ℕ → Event
  pub withdrawn : Pubkey → ℕ → Event
  pub valued : Pubkey → ℕ → Event
  pub deposit_decision : Decision
  pub withdraw_decision : Decision
  pub value_mut : Bool
  pub value_of : List AccountInfo → Result ℕ
  pub deposit_lem :
      (invoke : Invoke) (accounts : List AccountInfo) (amount : ℕ) (extra_data : List ℕ) (w : World)
      → deposit invoke accounts amount extra_data w
        ≡ transfer invoke protocol deposited deposit_decision accounts amount extra_data w
  pub withdraw_lem :
      (invoke : Invoke) (accounts : List AccountInfo) (amount : ℕ) (extra_data : List ℕ) (w : World)
      → withdraw invoke accounts amount extra_data w
        ≡ transfer invoke protocol withdrawn withdraw_decision accounts amount extra_data w
  pub current_value_lem :
      (caller : AccountInfo) (remaining : List AccountInfo) (w : World)
      → HasData remaining
      → current_value (caller ∷ remaining) w
        ≡ as_signer value_mut
            (caller ∷ remaining)
            (λ from rest. respond id (valued from.key) (value_of rest))
            w
