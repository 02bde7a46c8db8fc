-- ===== src/Dispatcher/Lifecycle/Liveness.antt =====
-- What the participants can always bring about.
use solana_yield_adapter_sta.Prelude.{
  ℕ, ◌≡◌, ◌≢◌, ◌≤◌, sym, subst, refl, length, true, List, [], ◌∷◌, ◌++◌, some, none, ==-refl,
  Bool-cases, inl, inr, ◌==◌, ==→eq,
}
use solana_yield_adapter_sta.Prelude.Int.{ℤ}
use solana_yield_adapter_sta.Types.Dispatcher.{Adapter, adapter, registry}
use solana_yield_adapter_sta.Interface.{DepositArgs}
use solana_yield_adapter_sta.Solana.Accounts.{AccountInfo, Pubkey}
use solana_yield_adapter_sta.Solana.Anchor.{Chain, FindsByBump}
use solana_yield_adapter_sta.Solana.Result.{Result, ok}
use solana_yield_adapter_sta.Solana.World.{World, Invoke, update}
use solana_yield_adapter_sta.Dispatcher.State.{id, adapter_seeds, registry_seeds}
use solana_yield_adapter_sta.Dispatcher.RegistryInit.{initializer_key, registry_space}
use solana_yield_adapter_sta.Dispatcher.AdapterInit.{AdapterInitArgs, adapter_space}
use solana_yield_adapter_sta.Dispatcher.ToggleAdapter
use solana_yield_adapter_sta.Dispatcher.Deposit
use solana_yield_adapter_sta.Dispatcher.Outcomes.Toggles.{toggled}
use solana_yield_adapter_sta.Dispatcher.Routing.Deposits.{deposit_process-IsRouted, sent, logged}
use solana_yield_adapter_sta.Dispatcher.Lifecycle.Toggling.{toggle-IsToggled}
use solana_yield_adapter_sta.Dispatcher.Lifecycle.Founding.{registry_init-IsFounded}
use solana_yield_adapter_sta.Dispatcher.Lifecycle.Registering.{adapter_init-IsRegistered, entry}
use solana_yield_adapter_sta.Dispatcher.Lifecycle.Steps.{
  Setting, Step, IsDecoded, registry_init, adapter_init,
}
use solana_yield_adapter_sta.Dispatcher.Lifecycle.Changes.{Found, IsEntry}
use solana_yield_adapter_sta.Dispatcher.Lifecycle.Safety.{IsSafe}
use solana_yield_adapter_sta.Dispatcher.Directory.Addresses.{
  CollisionFree, address, address-ne-registry,
}

-- What is found for seeds is derived from them and the bump.
derived :
    (c : Chain) (seeds : List (List ℕ)) (bump : ℕ) (k : Pubkey)
    → FindsByBump c
    → Found c seeds bump k
    → c.create_program_address (seeds ++ ((bump ∷ []) ∷ [])) id ≡ some k
derived c seeds bump k finds found =
    subst (λ (r : Pubkey × ℕ). c.create_program_address (seeds ++ ((r.1 ∷ []) ∷ [])) id ≡ some r.0)
      found (finds seeds id)

module _ (c : Chain) (finds : FindsByBump c) (w : World) (safe : IsSafe c w.accounts)
    (info : AccountInfo) (a : Adapter) (held : w.accounts info.key ≡ some (adapter a)) where
  held-address :
      c.create_program_address (adapter_seeds a.program_id a.authority ++ ((a.bump ∷ []) ∷ [])) id
      ≡ some info.key
  held-address =
      let (_, _, _, _, _, _, found) : IsEntry c info.key a = rw held at (safe info.key) in
      derived c (adapter_seeds a.program_id a.authority) a.bump info.key finds found

  -- Where bumps are found as documented, the authority of an adapter that is active or paused can
  -- always toggle it: in every safe world, with its own account writable and signed and the
  -- adapter's account writable, the call succeeds, exchanges the status and logs the new one.
  pub authority_can_toggle :
      (authority : AccountInfo) (rest : List AccountInfo)
      → authority.key ≡ a.authority
      → authority.is_signer ≡ true
      → authority.is_writable ≡ true
      → info.is_writable ≡ true
      → a.status ≤ 1
      → ToggleAdapter.process c (authority ∷ info ∷ rest) w ≡ ok (tt, toggled authority info a w)
  authority_can_toggle authority rest who signed writable open_info small =
      (toggle-IsToggled c authority info rest w (toggled authority info a w)).1
        (signed, writable, open_info, a, held, sym who, held-address, small, refl)

  -- Where bumps are found as documented, nobody can be kept from an active adapter: in every safe
  -- world a deposit by any writable signer, with at most 64 bytes of extra data and arguments that
  -- serialise, succeeds whenever the adapter's program accepts the instruction.
  pub anyone_can_deposit :
      (invoke : Invoke) (to_vec : DepositArgs → Result (List ℕ)) (caller : AccountInfo)
      (remaining : List AccountInfo) (args : DepositArgs) (bytes : List ℕ) (w₁ : World)
      → a.status ≡ 0
      → caller.is_signer ≡ true
      → caller.is_writable ≡ true
      → length args.extra_data ≤ 64
      → to_vec args ≡ ok bytes
      → invoke
          (sent (record { signer = caller; adapter = a }) remaining bytes)
          (caller ∷ remaining)
          w
        ≡ ok (tt, w₁)
      → Deposit.process invoke to_vec c (caller ∷ info ∷ remaining) args w
        ≡ ok (tt, logged (record { signer = caller; adapter = a }) args w₁)
  anyone_can_deposit invoke to_vec caller remaining args bytes w₁ active signed writable short
        encoded accepted =
      (deposit_process-IsRouted invoke to_vec c caller info remaining args w
          (logged (record { signer = caller; adapter = a }) args w₁)).1
        (
          a,
          (signed, writable, held, held-address),
          (active, short, bytes, w₁, encoded, accepted, refl),
        )

-- A free address, passed as a writable account, or the program at the default key.
abbrev account : Pubkey → AccountInfo
account k = record {
  key = k;
  is_signer = true;
  is_writable = true;
  owner = 0;
  lamports = 0;
  borrow = none;
}

-- The initializer, who pays out of `funds`.
abbrev payer : ℕ → AccountInfo
payer funds = record (account initializer_key) { lamports = funds }

-- The registry's account once it stands, with what was paid for it.
abbrev standing : Pubkey → ℕ → AccountInfo
standing k rent = record (account k) { owner = id; lamports = rent }

module _ (s : Setting) (finds : FindsByBump s.chain) (free : CollisionFree s.chain) (w : World)
    (args : AdapterInitArgs) (time : ℤ) where
  abbrev registry_address : Pubkey
  registry_address = (s.chain.find_program_address registry_seeds id).0

  abbrev adapter_address : Pubkey
  adapter_address = address s.chain args.program_id args.authority

  abbrev founded_world : World
  founded_world = record w {
    accounts = update w.accounts registry_address (
        registry (record {
          initializer = initializer_key;
          bump = (s.chain.find_program_address registry_seeds id).1;
        }));
  }

  abbrev registered_entry : Adapter
  registered_entry =
      entry args time
        (s.chain.find_program_address (adapter_seeds args.program_id args.authority) id).1

  abbrev registered_world : World
  registered_world = record founded_world {
    accounts = update founded_world.accounts adapter_address (adapter registered_entry);
  }

  still_free : w.accounts adapter_address ≡ none → founded_world.accounts adapter_address ≡ none
  still_free h = elim (Bool-cases (adapter_address == registry_address)) [
    | inl e ↦ absurd (address-ne-registry s.chain free args.program_id args.authority (==→eq _ _ e))
    | inr e ↦ rw e h
  ]

  -- Where bumps are found as documented, the hash of the seeds has no collisions, the clock answers
  -- and the system program makes the two accounts: from every world in which the registry and the
  -- adapter's address are free, two instructions lead to a world that holds the adapter under the
  -- requested keys and status, for all arguments with a status of at most 2 and no default key.
  pub bootstrap :
      (funds rent : ℕ)
      → s.chain.unix_timestamp ≡ ok time
      → s.chain.create_account (payer funds) (account registry_address) registry_space ≡ ok tt
      → s.chain.create_account (payer funds) (account adapter_address) adapter_space ≡ ok tt
      → w.accounts registry_address ≡ none
      → w.accounts adapter_address ≡ none
      → IsDecoded args
      → args.authority ≢ 0
      → args.program_id ≢ 0
      → args.supported_mint ≢ 0
      → args.status ≤ 2
      → (u : World) × (w' : World) × Step s w u
        × Step s u w'
        × (w'.accounts adapter_address ≡ some (adapter registered_entry))
  bootstrap funds rent clock pays_registry pays_adapter no_registry no_adapter decoded n1 n2 n3
        small =
      let founding =
        (registry_init-IsFounded s.chain (payer funds) (account registry_address) (account 0) [] w
            founded_world).1
          (refl, refl, refl, refl, refl, refl, no_registry, pays_registry, refl) in
      let registering =
        (adapter_init-IsRegistered s.chain (payer funds) (account adapter_address)
            (standing registry_address rent) (account 0) [] args founded_world registered_world).1
          (
            (refl, refl, refl, refl, refl, still_free no_adapter, pays_adapter, n1, n2, n3, small),
            _,
            rw (==-refl registry_address) refl,
            refl,
            finds registry_seeds id,
            time,
            clock,
            refl,
          ) in
      (
        founded_world,
        registered_world,
        registry_init _ founding,
        adapter_init _ args decoded registering,
        rw (==-refl adapter_address) refl,
      )
