-- ===== src/Dispatcher/Transactions/Runs.antt =====
-- Transactions of the dispatcher's instructions, run one after the other.
use solana_yield_adapter_sta.Prelude.{⊤, ◌≡◌, refl, subst, inl, inr, List, [], ◌∷◌, none, All}
use solana_yield_adapter_sta.Interface.{DepositArgs, WithdrawArgs}
use solana_yield_adapter_sta.Solana.Accounts.{AccountInfo}
use solana_yield_adapter_sta.Solana.Result.{Result, ok, err, Result-cases}
use solana_yield_adapter_sta.Solana.World.{World, Action}
use solana_yield_adapter_sta.Dispatcher.RegistryInit
use solana_yield_adapter_sta.Dispatcher.AdapterInit
use solana_yield_adapter_sta.Dispatcher.AdapterInit.{AdapterInitArgs}
use solana_yield_adapter_sta.Dispatcher.ToggleAdapter
use solana_yield_adapter_sta.Dispatcher.Deposit
use solana_yield_adapter_sta.Dispatcher.Withdraw
use solana_yield_adapter_sta.Dispatcher.CurrentValue
use solana_yield_adapter_sta.Dispatcher.Lifecycle.Steps.{
  Setting, KeepsAccounts, IsDecoded, Step, here, next,
}
use solana_yield_adapter_sta.Dispatcher.Lifecycle.Changes.{Change, passed, step-Change}
use solana_yield_adapter_sta.Dispatcher.Lifecycle.Safety.{IsSafe, Reach-IsSafe}

-- An instruction of the program with its accounts and arguments.
pub data Call : Type 0 where
  registry_init : List AccountInfo → Call
  adapter_init : List AccountInfo → (args : AdapterInitArgs) → IsDecoded args → Call
  toggle_adapter : List AccountInfo → Call
  deposit : List AccountInfo → DepositArgs → Call
  withdraw : List AccountInfo → WithdrawArgs → Call
  current_value : List AccountInfo → Call

abbrev pub accounts_of : Call → List AccountInfo
accounts_of (registry_init accounts) = accounts
accounts_of (adapter_init accounts args decoded) = accounts
accounts_of (toggle_adapter accounts) = accounts
accounts_of (deposit accounts args) = accounts
accounts_of (withdraw accounts args) = accounts
accounts_of (current_value accounts) = accounts

-- A new transaction: no return data yet, and an empty log.
abbrev pub begun : World → World
begun w = record w { return_data = none; log = [] }

-- A transaction that fails is rolled back.
abbrev pub settled : World → Result (⊤ × World) → World
settled w (ok (_, w')) = w'
settled w (err e) = w

module _ (s : Setting) where
  unfoldable pub execute : Call → Action ⊤
  execute (registry_init accounts) = RegistryInit.process s.chain accounts
  execute (adapter_init accounts args decoded) = AdapterInit.process s.chain accounts args
  execute (toggle_adapter accounts) = ToggleAdapter.process s.chain accounts
  execute (deposit accounts args) = Deposit.process s.invoke s.deposit_to_vec s.chain accounts args
  execute (withdraw accounts args) =
      Withdraw.process s.invoke s.withdraw_to_vec s.chain accounts args
  execute (current_value accounts) = CurrentValue.process s.invoke s.chain accounts

  -- The instructions of one transaction: the first error ends it.
  unfoldable pub transact : List Call → Action ⊤
  transact [] w = ok (tt, w)
  transact (c ∷ cs) w = elim (execute c w) [ ok (_, w₁) ↦ transact cs w₁ | err e ↦ err e ]

  unfoldable pub settle : List (List Call) → World → World
  unfolding transact
  settle [] w = w
  settle (t ∷ ts) w = settle ts (settled w (transact t (begun w)))

  execute-Step : (c : Call) (w w' : World) → execute c w ≡ ok (tt, w') → Step s w w'
  unfolding execute
  execute-Step (registry_init accounts) w w' h = Step.registry_init accounts h
  execute-Step (adapter_init accounts args decoded) w w' h =
      Step.adapter_init accounts args decoded h
  execute-Step (toggle_adapter accounts) w w' h = Step.toggle_adapter accounts h
  execute-Step (deposit accounts args) w w' h = Step.deposit accounts args h
  execute-Step (withdraw accounts args) w w' h = Step.withdraw accounts args h
  execute-Step (current_value accounts) w w' h = Step.current_value accounts h

  passed-execute :
      (c : Call) (w w' : World) (h : execute c w ≡ ok (tt, w'))
      → passed (execute-Step c w w' h) ≡ accounts_of c
  unfolding execute-Step
  passed-execute (registry_init accounts) w w' h = refl
  passed-execute (adapter_init accounts args decoded) w w' h = refl
  passed-execute (toggle_adapter accounts) w w' h = refl
  passed-execute (deposit accounts args) w w' h = refl
  passed-execute (withdraw accounts args) w w' h = refl
  passed-execute (current_value accounts) w w' h = refl

  -- What every instruction that succeeds keeps, and the start of a transaction too, every run of
  -- transactions keeps, those included that fail.
  module _ {ℓ} (P : World → Type ℓ) (Q : Call → Type ℓ) (begins : (w : World) → P w → P (begun w))
      (keeps : (c : Call) (w w' : World) → Q c → execute c w ≡ ok (tt, w') → P w → P w') where
    transact-keeps :
        (cs : List Call) (w w' : World) → All Q cs → transact cs w ≡ ok (tt, w') → P w → P w'
    unfolding transact
    transact-keeps [] w w' q h p = subst P (cc h) p
    transact-keeps (c ∷ cs) w w' q h p = elim (Result-cases (execute c w)) [
      | inl ((_, w₁), e) ↦
          transact-keeps cs w₁ w' q.1 (rw (e, transact) at h) (keeps c w w₁ q.0 e p)
      | inr (x, e) ↦ cc (rw (e, transact) at h)
    ]

    pub settle-keeps : (ts : List (List Call)) (w : World) → All (All Q) ts → P w → P (settle ts w)
    unfolding settle
    settle-keeps [] w q p = p
    settle-keeps (t ∷ ts) w q p = elim (Result-cases (transact t (begun w))) [
      | inl ((_, w₁), e) ↦
          rw e (settle-keeps ts w₁ q.1 (transact-keeps t (begun w) w₁ q.0 e (begins w p)))
      | inr (x, e) ↦ rw e (settle-keeps ts w q.1 p)
    ]

module _ (s : Setting) (keeps : KeepsAccounts s.invoke) (c : Call) (w w' : World)
    (h : execute s c w ≡ ok (tt, w')) where
  pub execute-Change : Change s.chain (accounts_of c) w.accounts w'.accounts
  execute-Change =
      subst (λ xs. Change s.chain xs w.accounts w'.accounts) (passed-execute s c w w' h)
        (step-Change s w w' keeps (execute-Step s c w w' h))

  pub execute-IsSafe : IsSafe s.chain w.accounts → IsSafe s.chain w'.accounts
  execute-IsSafe safe = Reach-IsSafe s keeps w w' safe (next here (execute-Step s c w w' h))

-- Nothing is asked of the calls.
anything : (ts : List (List Call)) → All (All (λ (c : Call). ⊤)) ts
anything [] = tt
anything (t ∷ ts) = (each t, anything ts)
  where
    each : (cs : List Call) → All (λ (c : Call). ⊤) cs
    each [] = tt
    each (c ∷ cs) = (tt, each cs)

-- Where invoked programs keep the dispatcher's accounts, every list of transactions, whatever
-- instructions they hold and whichever of them fail, leads from a safe world to a safe world.
pub settle-IsSafe :
    (s : Setting) (ts : List (List Call)) (w : World)
    → KeepsAccounts s.invoke
    → IsSafe s.chain w.accounts
    → IsSafe s.chain (settle s ts w).accounts
settle-IsSafe s ts w keeps safe =
    settle-keeps s (λ v. IsSafe s.chain v.accounts) (λ c. ⊤) (λ v p. p)
      (λ c v v' q h p. Reach-IsSafe s keeps v v' p (next here (execute-Step s c v v' h))) ts w
      (anything ts) safe
