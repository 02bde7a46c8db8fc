-- ===== src/Dispatcher/Lifecycle/Registering.antt =====
-- `adapter_init` (programs/dispatcher/src/instructions/adapter_init.rs).
use solana_yield_adapter_sta.Prelude.{
  ℕ, ◌≡◌, ◌≢◌, ◌≤◌, ◌↔◌, inl, inr, arith, true, List, [], ◌∷◌, ◌++◌, some, none, Option-cases,
}
use solana_yield_adapter_sta.Prelude.Int.{ℤ}
use solana_yield_adapter_sta.Types.Dispatcher.{Adapter, adapter, Registry, registry}
use solana_yield_adapter_sta.Interface.{from_u8}
use solana_yield_adapter_sta.Solana.Accounts.{AccountInfo}
use solana_yield_adapter_sta.Solana.Anchor.{Chain}
use solana_yield_adapter_sta.Solana.Result.{ok, Result-cases}
use solana_yield_adapter_sta.Solana.World.{World, update}
use solana_yield_adapter_sta.Dispatcher.State.{id, adapter_seeds, registry_seeds, adapter_invariant}
use solana_yield_adapter_sta.Dispatcher.AdapterInit
use solana_yield_adapter_sta.Dispatcher.AdapterInit.{AdapterInitArgs, adapter_space}

-- The account that is written, for the arguments, the time and the bump.
abbrev pub entry : AdapterInitArgs → ℤ → ℕ → Adapter
entry args time bump = record {
  authority = args.authority;
  program_id = args.program_id;
  supported_mint = args.supported_mint;
  status = args.status;
  registered_at = time;
  bump = bump;
}

module _ (c : Chain) where
  -- What the call needs of its accounts and arguments alone.
  abbrev pub IsRequest : AccountInfo → AccountInfo → AccountInfo → AdapterInitArgs → World → Type 0
  IsRequest initializer info system args w =
      let k = (c.find_program_address (adapter_seeds args.program_id args.authority) id).0 in
      (initializer.is_signer ≡ true)
      × (initializer.is_writable ≡ true)
      × (info.is_writable ≡ true)
      × (system.key ≡ 0)
      × (info.key ≡ k)
      × (w.accounts k ≡ none)
      × (c.create_account initializer info adapter_space ≡ ok tt)
      × (args.authority ≢ 0)
      × (args.program_id ≢ 0)
      × (args.supported_mint ≢ 0)
      × (args.status ≤ 2)

  -- The initializer that the registry names has asked for it; the new account stands at the
  -- address derived from the program and the authority, which was free.
  abbrev pub IsRegistered :
      AccountInfo
      → AccountInfo
      → AccountInfo
      → AccountInfo
      → AdapterInitArgs
      → World
      → World
      → Type 0
  IsRegistered initializer info registry_info system args w w' =
      let (k, bump) = c.find_program_address (adapter_seeds args.program_id args.authority) id in
      IsRequest initializer info system args w
      × (r : Registry) × (w.accounts registry_info.key ≡ some (registry r))
      × (r.initializer ≡ initializer.key)
      × (c.create_program_address (registry_seeds ++ ((r.bump ∷ []) ∷ [])) id
          ≡ some registry_info.key)
      × (time : ℤ) × (c.unix_timestamp ≡ ok time)
      × (w' ≡ record w { accounts = update w.accounts k (adapter (entry args time bump)) })

  -- A registration succeeds exactly when the signer is the initializer of the registry account and
  -- a writable account, the registry account stands at an address of the registry's seeds, the
  -- system program is passed and makes the account, the adapter account is writable and is the
  -- address found for the program and the authority, no account of the dispatcher stands there, the
  -- three keys are not the default key, the status is at most 2 and the clock answers; it writes
  -- the arguments, the time and the found bump there, and changes nothing else.
  pub adapter_init-IsRegistered :
      (initializer info registry_info system : AccountInfo) (rest : List AccountInfo)
      (args : AdapterInitArgs) (w w' : World)
      → (AdapterInit.process c (initializer ∷ info ∷ registry_info ∷ system ∷ rest) args w
          ≡ ok (tt, w'))
        ↔ IsRegistered initializer info registry_info system args w w'
  unfolding AdapterInit.process from_u8 adapter_invariant
  adapter_init-IsRegistered initializer info registry_info system rest args w w' =
      (forward, λ t. ground arith)
    where
      forward :
          AdapterInit.process c (initializer ∷ info ∷ registry_info ∷ system ∷ rest) args w
            ≡ ok (tt, w')
          → IsRegistered initializer info registry_info system args w w'
      forward h = elim (Option-cases (w.accounts registry_info.key)) [
        | inl e ↦ absurd (ground arith)
        | inr (adapter a, e) ↦ absurd (ground arith)
        | inr (registry r, e) ↦ elim (Result-cases c.unix_timestamp) [
          | inl (time, t) ↦ (ground arith, r, e, ground arith, ground arith, time, t, ground arith)
          | inr (x, t) ↦ absurd (ground arith)
        ]
      ]
