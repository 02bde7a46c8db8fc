-- ===== src/Dispatcher/Outcomes/Foundings.antt =====
-- Every outcome of `registry_init` (programs/dispatcher/src/instructions/registry_init.rs).
use solana_yield_adapter_sta.Prelude.{
  ⊤, ◌≡◌, ◌==◌, inl, inr, arith, List, [], ◌∷◌, ◌++◌, Option-cases,
}
use solana_yield_adapter_sta.Types.{
  anchor, dispatcher, account_not_enough_keys, constraint_mut, invalid_program_id,
}
use solana_yield_adapter_sta.Types.Dispatcher.{registry, unauthorized}
use solana_yield_adapter_sta.Solana.Accounts.{AccountInfo}
use solana_yield_adapter_sta.Solana.Anchor.{Chain}
use solana_yield_adapter_sta.Solana.Result.{Result, ok, err, Result-cases}
use solana_yield_adapter_sta.Solana.World.{World, update}
use solana_yield_adapter_sta.Dispatcher.State.{id, registry_invariant, registry_seeds}
use solana_yield_adapter_sta.Dispatcher.RegistryInit
use solana_yield_adapter_sta.Dispatcher.RegistryInit.{initializer_key, registry_space}
use solana_yield_adapter_sta.Dispatcher.Outcomes.Checks.{guarded, signs, created}

abbrev pub founding_table : Chain → List AccountInfo → World → Result (⊤ × World)
founding_table c (initializer ∷ info ∷ system_program ∷ rest) w =
    guarded (signs initializer ++ ((system_program.key == 0, anchor invalid_program_id) ∷ [])) (
      created c w initializer registry_space registry_seeds info (
        guarded
          ((initializer.is_writable, anchor constraint_mut)
            ∷ (initializer.key == initializer_key, dispatcher unauthorized)
            ∷ [])
          (ok (
            tt,
            record w {
              accounts = update w.accounts info.key (
                  registry (record {
                    initializer = initializer_key;
                    bump = (c.find_program_address registry_seeds id).1;
                  }));
            },
          ))))
founding_table c (initializer ∷ info ∷ []) w =
    guarded (signs initializer) (err (anchor account_not_enough_keys))
founding_table c (initializer ∷ []) w =
    guarded (signs initializer) (err (anchor account_not_enough_keys))
founding_table c [] w = err (anchor account_not_enough_keys)

-- The whole creation of the registry, on every input. Its checks run in this order, and the first
-- that fails gives the error: there is a first account, it signs, there are a second and a third
-- account, the third is the system program; the second stands at the address found for the registry
-- and is free (if not, the error is AccountAlreadyInUse, or that of the runtime for an account that
-- is not writable), the system program makes the account, or its error is returned, and the account
-- is writable; the first is writable and is the configured key. Past them, the registry with that
-- key and the bump is written to the account, and nothing else changes.
pub founding_outcome :
    (c : Chain) (accounts : List AccountInfo) (w : World)
    → RegistryInit.process c accounts w ≡ founding_table c accounts w
unfolding RegistryInit.process registry_invariant
founding_outcome c [] w = ground arith
founding_outcome c (x ∷ []) w = ground arith
founding_outcome c (x ∷ y ∷ []) w = ground arith
founding_outcome c (initializer ∷ info ∷ system_program ∷ rest) w =
    elim (Option-cases (w.accounts info.key)) [
      | inr (held, taken) ↦ ground arith
      | inl free ↦ elim (Result-cases (c.create_account initializer info registry_space)) [
        | inl (_, made) ↦ ground arith
        | inr (x, refused) ↦ ground arith
      ]
    ]
