-- ===== src/Dispatcher/Lifecycle/Changes.antt =====
-- The dispatcher's accounts as an abstract state machine.
use solana_yield_adapter_sta.Prelude.{
  ℕ, refl, ◌<◌, ◌^◌, ◌≡◌, ◌≢◌, ◌≤◌, ◌-◌, ap, sym, arith, true, List, [], ◌∷◌, Option, some, none,
}
use solana_yield_adapter_sta.Types.Dispatcher.{
  DispatcherAccount, Adapter, adapter, Registry, registry,
}
use solana_yield_adapter_sta.Solana.Accounts.{AccountInfo, Pubkey}
use solana_yield_adapter_sta.Solana.Anchor.{Chain}
use solana_yield_adapter_sta.Solana.Result.{ok}
use solana_yield_adapter_sta.Solana.World.{World, update}
use solana_yield_adapter_sta.Dispatcher.State.{id, adapter_seeds, registry_seeds}
use solana_yield_adapter_sta.Dispatcher.RegistryInit
use solana_yield_adapter_sta.Dispatcher.RegistryInit.{initializer_key}
use solana_yield_adapter_sta.Dispatcher.AdapterInit
use solana_yield_adapter_sta.Dispatcher.AdapterInit.{AdapterInitArgs}
use solana_yield_adapter_sta.Dispatcher.ToggleAdapter
use solana_yield_adapter_sta.Dispatcher.Lifecycle.Founding.{registry_init-IsFounded}
use solana_yield_adapter_sta.Dispatcher.Lifecycle.Registering.{adapter_init-IsRegistered}
use solana_yield_adapter_sta.Dispatcher.Lifecycle.Toggling.{toggle-IsToggled}
use solana_yield_adapter_sta.Dispatcher.Lifecycle.Quiet.{
  deposit-accounts, withdraw-accounts, current_value-accounts,
}
use solana_yield_adapter_sta.Dispatcher.Lifecycle.Steps.{
  IsDecoded, Setting, KeepsAccounts, Step, registry_init, adapter_init, toggle_adapter, deposit,
  withdraw, current_value, other,
}

abbrev pub Accounts : Type 0
Accounts = Pubkey → Option DispatcherAccount

-- The first account of the instruction is the key `k`, and it has signed.
abbrev pub HeadSigned : List AccountInfo → Pubkey → Type 0
HeadSigned [] k = ⊥
HeadSigned (x ∷ _) k = (x.is_signer ≡ true) × (x.key ≡ k)

-- The address and the bump are those that are found for the seeds.
abbrev pub Found : Chain → List (List ℕ) → ℕ → Pubkey → Type 0
Found c seeds bump k = c.find_program_address seeds id ≡ (k, bump)

-- An entry that a registration may write.
abbrev pub IsEntry : Chain → Pubkey → Adapter → Type 0
IsEntry c k a =
    (a.authority ≢ 0)
    × (a.program_id ≢ 0)
    × (a.supported_mint ≢ 0)
    × (a.status ≤ 2)
    × (a.authority < 2 ^ 256)
    × (a.program_id < 2 ^ 256)
    × Found c (adapter_seeds a.program_id a.authority) a.bump k

-- From the accounts `f` to `g`, by an instruction on `signers`: nothing, the registry of the
-- configured key, a new adapter by a registry's initializer, or a toggle by the adapter's
-- authority.
pub data Change (c : Chain) (signers : List AccountInfo) (f g : Accounts) : Type 0 where
  same : g ≡ f → Change c signers f g
  founded :
      (k : Pubkey) (bump : ℕ)
      → HeadSigned signers initializer_key
      → f k ≡ none
      → Found c registry_seeds bump k
      → g ≡ update f k (registry (record { initializer = initializer_key; bump = bump }))
      → Change c signers f g
  registered :
      (j : Pubkey) (r : Registry) (k : Pubkey) (a : Adapter)
      → f j ≡ some (registry r)
      → HeadSigned signers r.initializer
      → f k ≡ none
      → IsEntry c k a
      → g ≡ update f k (adapter a)
      → Change c signers f g
  toggled :
      (k : Pubkey) (a : Adapter)
      → f k ≡ some (adapter a)
      → HeadSigned signers a.authority
      → a.status ≤ 1
      → g ≡ update f k (adapter (record a { status = 1 - a.status }))
      → Change c signers f g

-- The accounts that a step's instruction was given.
abbrev pub passed : {s : Setting} {w w' : World} → Step s w w' → List AccountInfo
passed (registry_init accounts h) = accounts
passed (adapter_init accounts args decoded h) = accounts
passed (toggle_adapter accounts h) = accounts
passed (deposit accounts args h) = accounts
passed (withdraw accounts args h) = accounts
passed (current_value accounts h) = accounts
passed (other h) = []

abbrev accounts_of : World → Accounts
accounts_of w = w.accounts

module _ (c : Chain) (w w' : World) where
  founding :
      (accounts : List AccountInfo)
      → RegistryInit.process c accounts w ≡ ok (tt, w')
      → Change c accounts w.accounts w'.accounts
  unfolding RegistryInit.process
  founding [] h = cc
  founding (x ∷ []) h = absurd (ground arith)
  founding (x ∷ y ∷ []) h = absurd (ground arith)
  founding (initializer ∷ info ∷ system ∷ rest) h =
      let (signed, _, _, _, who, _, free, _, result) =
        (registry_init-IsFounded c initializer info system rest w w').0 h in
      let (k, bump) = c.find_program_address registry_seeds id in
      founded k bump (signed, who) free refl (ap accounts_of result)

  registering :
      (accounts : List AccountInfo) (args : AdapterInitArgs)
      → IsDecoded args
      → AdapterInit.process c accounts args w ≡ ok (tt, w')
      → Change c accounts w.accounts w'.accounts
  unfolding AdapterInit.process
  registering [] args decoded h = cc
  registering (x ∷ []) args decoded h = absurd (ground arith)
  registering (x ∷ y ∷ []) args decoded h = absurd (ground arith)
  registering (x ∷ y ∷ z ∷ []) args decoded h = absurd (ground arith)
  registering (initializer ∷ info ∷ registry_info ∷ system ∷ rest) args decoded h =
      let (request, r, found, who, _, time, _, result) =
        (adapter_init-IsRegistered c initializer info registry_info system rest args w w').0 h in
      let (signed, _, _, _, _, free, _, n1, n2, n3, small) = request in
      let seeds = adapter_seeds args.program_id args.authority in
      registered registry_info.key r (c.find_program_address seeds id).0 _ found (signed, sym who)
        free (n1, n2, n3, small, decoded.0, decoded.1, refl) (ap accounts_of result)

  toggling :
      (accounts : List AccountInfo)
      → ToggleAdapter.process c accounts w ≡ ok (tt, w')
      → Change c accounts w.accounts w'.accounts
  unfolding ToggleAdapter.process
  toggling [] h = cc
  toggling (x ∷ []) h = absurd (ground arith)
  toggling (authority ∷ info ∷ rest) h =
      let (signed, _, _, a, found, who, _, small, result) =
        (toggle-IsToggled c authority info rest w w').0 h in
      toggled info.key a found (signed, sym who) small (ap accounts_of result)

-- Every step of the program follows the machine: whatever instruction runs, on whatever accounts,
-- it changes the dispatcher's accounts in one of the four ways, with the signature that the way
-- asks for, provided that invoked programs keep the accounts.
pub step-Change :
    (s : Setting) (w w' : World)
    → KeepsAccounts s.invoke
    → (st : Step s w w') → Change s.chain (passed st) w.accounts w'.accounts
step-Change s w w' keeps (registry_init accounts h) = founding s.chain w w' accounts h
step-Change s w w' keeps (adapter_init accounts args decoded h) =
    registering s.chain w w' accounts args decoded h
step-Change s w w' keeps (toggle_adapter accounts h) = toggling s.chain w w' accounts h
step-Change s w w' keeps (deposit accounts args h) =
    same (deposit-accounts s.chain s.invoke keeps s.deposit_to_vec accounts args w w' h)
step-Change s w w' keeps (withdraw accounts args h) =
    same (withdraw-accounts s.chain s.invoke keeps s.withdraw_to_vec accounts args w w' h)
step-Change s w w' keeps (current_value accounts h) =
    same (current_value-accounts s.chain s.invoke keeps accounts w w' h)
step-Change s w w' keeps (other h) = same h
