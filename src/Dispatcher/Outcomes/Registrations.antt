-- ===== src/Dispatcher/Outcomes/Registrations.antt =====
-- Every outcome of `adapter_init` (programs/dispatcher/src/instructions/adapter_init.rs).
use solana_yield_adapter_sta.Prelude.{
  ⊤, some, ap, ◌∙◌, refl, Bool-cases, ◌≡◌, ◌==◌, inl, inr, arith, leb, not, List, [], ◌∷◌,
  Option-cases,
}
use solana_yield_adapter_sta.Types.{
  anchor, dispatcher, account_not_enough_keys, constraint_mut, constraint_seeds, invalid_program_id,
}
use solana_yield_adapter_sta.Types.Dispatcher.{
  Registry, adapter, registry, invalid_account, invalid_status, unauthorized,
}
use solana_yield_adapter_sta.Interface.{from_u8}
use solana_yield_adapter_sta.Solana.Accounts.{Pubkey, AccountInfo}
use solana_yield_adapter_sta.Solana.Anchor.{Chain}
use solana_yield_adapter_sta.Solana.Result.{Result, ok, err, Result-cases}
use solana_yield_adapter_sta.Solana.World.{World, Action, update}
use solana_yield_adapter_sta.Dispatcher.State.{id, adapter_invariant, registry_seeds, adapter_seeds}
use solana_yield_adapter_sta.Dispatcher.AdapterInit
use solana_yield_adapter_sta.Dispatcher.AdapterInit.{AdapterInitArgs, adapter_space}
use solana_yield_adapter_sta.Dispatcher.Lifecycle.Registering.{entry}
use solana_yield_adapter_sta.Dispatcher.Outcomes.Checks.{
  Check, guarded, signs, with_registry, derives, created, load_error-eq-unheld,
}

-- A key that may not be the default key.
abbrev given : Pubkey → Check
given k = (not (k == 0), dispatcher invalid_account)

-- Once Anchor has admitted the accounts.
abbrev pub admitted_table :
    Chain → AdapterInit.AdapterInit → AdapterInitArgs → World → Result (⊤ × World)
admitted_table c ctx args w =
    guarded ((leb args.status 2, dispatcher invalid_status) ∷ []) (elim c.unix_timestamp [
      | err e ↦ err e
      | ok time ↦
          guarded (given args.authority ∷ given args.program_id ∷ given args.supported_mint ∷ []) (
            ok (
              tt,
              record w {
                accounts =
                    update w.accounts ctx.adapter.key (adapter (entry args time ctx.adapter_bump));
              },
            ))
    ])

-- A handler behind the accounts that Anchor has admitted.
abbrev after : {A B : Type 0} → Result (A × World) → (A → Action B) → Result (B × World)
after r f = elim r [ ok (x, v) ↦ f x v | err e ↦ err e ]

module _ (c : Chain) (initializer info registry_info system_program : AccountInfo)
    (args : AdapterInitArgs) (w : World) where
  -- What Anchor checks, given the registry, before `r`.
  abbrev constrained : {A : Type 0} → Registry → Result A → Result A
  constrained reg r = guarded ((system_program.key == 0, anchor invalid_program_id) ∷ []) (
      created c w initializer adapter_space (adapter_seeds args.program_id args.authority) info (
        guarded
          ((initializer.is_writable, anchor constraint_mut)
            ∷ (derives c registry_seeds reg.bump registry_info.key, anchor constraint_seeds)
            ∷ (reg.initializer == initializer.key, dispatcher unauthorized)
            ∷ [])
          r))

  abbrev admitted : Registry → AdapterInit.AdapterInit
  admitted r = record {
    initializer = initializer;
    adapter = info;
    adapter_bump = (c.find_program_address (adapter_seeds args.program_id args.authority) id).1;
    registry = r;
  }

  admitting :
      (rest : List AccountInfo) (reg : Registry)
      → w.accounts registry_info.key ≡ some (registry reg)
      → AdapterInit.try_accounts c
          (initializer ∷ info ∷ registry_info ∷ system_program ∷ rest)
          args
          w
        ≡ guarded (signs initializer) (constrained reg (ok (admitted reg, w)))
  unfolding AdapterInit.try_accounts
  admitting rest reg e = elim (Option-cases (w.accounts info.key)) [
    | inr (held, taken) ↦ ground arith
    | inl free ↦ elim (Result-cases (c.create_account initializer info adapter_space)) [
      | inl (_, made) ↦ ground arith
      | inr (x, refused) ↦ ground arith
    ]
  ]

  -- What follows the checks is done once they have passed.
  constrained-bind :
      {A B : Type 0} (reg : Registry) (x : A) (f : A → Action B)
      → after (guarded (signs initializer) (constrained reg (ok (x, w)))) f
        ≡ guarded (signs initializer) (constrained reg (f x w))
  constrained-bind reg x f = elim (Option-cases (w.accounts info.key)) [
    | inr (held, taken) ↦ ground arith
    | inl free ↦ elim (Result-cases (c.create_account initializer info adapter_space)) [
      | inl (_, made) ↦ ground arith
      | inr (y, refused) ↦ ground arith
    ]
  ]

abbrev pub registration_table :
    Chain → List AccountInfo → AdapterInitArgs → World → Result (⊤ × World)
registration_table c (initializer ∷ info ∷ registry_info ∷ system_program ∷ rest) args w =
    guarded (signs initializer) (
      with_registry w registry_info (λ r.
        constrained c initializer info registry_info system_program args w r (
          admitted_table c (admitted c initializer info registry_info system_program args w r) args
            w)))
registration_table c (initializer ∷ info ∷ registry_info ∷ []) args w =
    guarded (signs initializer)
      (with_registry w registry_info (λ r. err (anchor account_not_enough_keys)))
registration_table c (initializer ∷ info ∷ []) args w =
    guarded (signs initializer) (err (anchor account_not_enough_keys))
registration_table c (initializer ∷ []) args w =
    guarded (signs initializer) (err (anchor account_not_enough_keys))
registration_table c [] args w = err (anchor account_not_enough_keys)

handling :
    (c : Chain) (ctx : AdapterInit.AdapterInit) (args : AdapterInitArgs) (w : World)
    → AdapterInit.adapter_init c ctx args w ≡ admitted_table c ctx args w
unfolding AdapterInit.adapter_init from_u8 adapter_invariant
handling c ctx args w = elim (Result-cases c.unix_timestamp) [
  | inl (time, e) ↦ ground arith
  | inr (x, e) ↦ ground arith
]

-- The whole registration of an adapter, on every input. Its checks run in this order, and the first
-- that fails gives the error: there is a first account, it signs, there are a second and a third
-- account, the third holds a registry (if not, the error is AccountDiscriminatorMismatch for an
-- adapter, and otherwise AccountNotInitialized where the system program owns the account and it has
-- no lamports, AccountOwnedByWrongProgram where another program does, AccountBorrowFailed for data
-- that is borrowed, AccountDiscriminatorNotFound below eight bytes, or
-- AccountDiscriminatorMismatch), there is a fourth account, it is the system program; the second
-- stands at the address found for the requested program and authority and is free (if not, the
-- error is AccountAlreadyInUse, or that of the runtime for an account that is not writable), the
-- system program makes the account, or its error is returned, and the account is writable; the
-- first is writable, the third stands at the registry's own address, the first is its initializer;
-- the status is at most 2; the clock answers, or its error is returned; authority, program and mint
-- are not the default key. Past them, the entry with the time and the bump is written to the
-- account, and nothing else changes.
pub registration_outcome :
    (c : Chain) (accounts : List AccountInfo) (args : AdapterInitArgs) (w : World)
    → AdapterInit.process c accounts args w ≡ registration_table c accounts args w
unfolding AdapterInit.process
registration_outcome c [] args w = ground arith
registration_outcome c (x ∷ []) args w = ground arith
registration_outcome c (x ∷ y ∷ []) args w = ground arith
registration_outcome c (x ∷ y ∷ z ∷ []) args w = elim (Option-cases (w.accounts z.key)) [
  | inl e ↦ ground (arith, load_error-eq-unheld {A = ⊤ × World} z)
  | inr (registry r, e) ↦ ground arith
  | inr (adapter a, e) ↦ ground arith
]
registration_outcome c (initializer ∷ info ∷ registry_info ∷ system_program ∷ rest) args w =
    elim (Option-cases (w.accounts registry_info.key)) [
      | inl e ↦ ground (arith, load_error-eq-unheld {A = ⊤ × World} registry_info)
      | inr (adapter a, e) ↦ ground arith
      | inr (registry reg, e) ↦
          let ctx : AdapterInit.AdapterInit =
            admitted c initializer info registry_info system_program args w reg in
          ap
            (λ (t : Result (AdapterInit.AdapterInit × World)).
              after t (λ x. AdapterInit.adapter_init c x args))
            (admitting c initializer info registry_info system_program args w rest reg e)
          ∙ constrained-bind c initializer info registry_info system_program args w reg ctx
              (λ x. AdapterInit.adapter_init c x args)
          ∙ ap
              (λ r.
                guarded (signs initializer)
                  (constrained c initializer info registry_info system_program args w reg r))
              (handling c ctx args w)
          ∙ elim (Bool-cases initializer.is_signer) [
            | inl t ↦ rw (t, e, with_registry) refl
            | inr f ↦ rw f refl
          ]
    ]
