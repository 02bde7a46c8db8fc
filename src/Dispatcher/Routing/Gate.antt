-- ===== src/Dispatcher/Routing/Gate.antt =====
-- The checks that stand before every routed call.
use solana_yield_adapter_sta.Prelude.{◌≡◌, true, some, ◌∷◌, [], ◌++◌}
use solana_yield_adapter_sta.Types.Dispatcher.{Adapter, adapter}
use solana_yield_adapter_sta.Solana.World.{World}
use solana_yield_adapter_sta.Dispatcher.State.{adapter_seeds, id}
use solana_yield_adapter_sta.Solana.Accounts.{AccountInfo}
use solana_yield_adapter_sta.Solana.Anchor.{Chain}

-- What Anchor checks of the first two accounts of a routing instruction: a writable signer, and an
-- adapter account that stands at the address derived from its own program, authority and bump.
abbrev pub IsAdmitted : Chain → AccountInfo → AccountInfo → Adapter → World → Type 0
IsAdmitted c caller info a w =
    (caller.is_signer ≡ true)
    × (caller.is_writable ≡ true)
    × (w.accounts info.key ≡ some (adapter a))
    × (c.create_program_address (adapter_seeds a.program_id a.authority ++ ((a.bump ∷ []) ∷ [])) id
        ≡ some info.key)
