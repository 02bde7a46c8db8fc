-- ===== src/Integration/Calls.antt =====
-- What the Solana runtime documents of a cross-program invocation, for the accounts that the
-- dispatcher passes: one for each meta, in the same order.
use solana_yield_adapter_sta.Prelude.{
  ⊤, ℕ, Bool, true, false, ◌≡◌, ◌==◌, ◌&&◌, ◌||◌, none, List, [], ◌∷◌, map,
}
use solana_yield_adapter_sta.Solana.Accounts.{Pubkey, AccountMeta, AccountInfo}
use solana_yield_adapter_sta.Solana.Anchor.{to_meta, new_readonly}
use solana_yield_adapter_sta.Solana.World.{World, Action, Invoke}

-- Whether some meta gives the key the privilege.
abbrev pub grants : (AccountMeta → Bool) → Pubkey → List AccountMeta → Bool
grants privilege k [] = false
grants privilege k (m ∷ ms) = (m.pubkey == k && privilege m) || grants privilege k ms

-- An account as the callee sees it: its own data, and the privileges that any meta gives its key.
abbrev pub merged : List AccountMeta → AccountInfo → AccountInfo
merged metas a = record a {
  is_signer = grants (λ m. m.is_signer) a.key metas;
  is_writable = grants (λ m. m.is_writable) a.key metas;
}

-- The metas of a routed call: the caller as a read-only signer, then the remaining accounts.
abbrev pub metas_of : AccountInfo → List AccountInfo → List AccountMeta
metas_of caller remaining = new_readonly caller.key true ∷ map to_meta remaining

abbrev pub Entry : Type 0
Entry = List AccountInfo → List ℕ → Action ⊤

-- The runtime runs `entry` as the program `program`: on the merged accounts and the instruction's
-- data, with the return data cleared.
abbrev pub Runs : Invoke → Pubkey → Entry → Type 0
Runs invoke program entry =
    (caller : AccountInfo) (remaining : List AccountInfo) (bytes : List ℕ) (w : World)
    → invoke (record { program_id = program; accounts = metas_of caller remaining; bytes = bytes })
        (caller ∷ remaining) w
      ≡ entry (map (merged (metas_of caller remaining)) (caller ∷ remaining)) bytes
          (record w { return_data = none })
