-- ===== src/Tests/Queries.antt =====
-- Value queries through the dispatcher, on runtimes that run one adapter for every program.
use solana_yield_adapter_sta.Prelude.{◌≡◌, refl, [], ◌∷◌, map, none}
use solana_yield_adapter_sta.Types.{anchor, constraint_mut}
use solana_yield_adapter_sta.Solana.Result.{err}
use solana_yield_adapter_sta.Solana.World.{Invoke}
use solana_yield_adapter_sta.Dispatcher.CurrentValue
use solana_yield_adapter_sta.Integration.Calls.{Entry, merged}
use solana_yield_adapter_sta.Integration.Queries.{query, drift, readonly_query_fails}
use solana_yield_adapter_sta.Tests.Fixtures.{caller, vault, active_entry, registered_world}

abbrev runtime : Entry → Invoke
runtime entry ix infos w =
    entry (map (merged ix.accounts) infos) ix.bytes (record w { return_data = none })

abbrev drift_entry : Entry
drift_entry accounts bytes = query drift accounts

readonly_query_fails_example :
    CurrentValue.current_value
      (runtime drift_entry)
      (record { authority = caller; adapter = active_entry })
      (vault ∷ [])
      registered_world
    ≡ err (anchor constraint_mut)
readonly_query_fails_example =
    readonly_query_fails (runtime drift_entry) drift_entry active_entry caller (vault ∷ [])
      registered_world drift (λ from remaining bytes w. refl) (λ accounts w. refl) refl refl
