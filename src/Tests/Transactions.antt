-- ===== src/Tests/Transactions.antt =====
-- Runs of transactions on a chain with one adapter, and with two.
use solana_yield_adapter_sta.Prelude.{
  ◌≡◌, ◌≢◌, refl, sym, inl, inr, arith, List, [], ◌∷◌, some, ==-refl, ◌==◌, ==→eq, Bool-cases,
  subst,
}
use solana_yield_adapter_sta.Prelude.{none}
use solana_yield_adapter_sta.Types.Dispatcher.{Adapter, adapter}
use solana_yield_adapter_sta.Solana.Accounts.{AccountInfo, Pubkey}
use solana_yield_adapter_sta.Solana.Result.{ok}
use solana_yield_adapter_sta.Solana.World.{World, update}
use solana_yield_adapter_sta.Dispatcher.Deposit
use solana_yield_adapter_sta.Dispatcher.ToggleAdapter
use solana_yield_adapter_sta.Dispatcher.RegistryInit.{initializer_key}
use solana_yield_adapter_sta.Dispatcher.State.{adapter_seeds}
use solana_yield_adapter_sta.Dispatcher.Outcomes.Toggles.{toggled}
use solana_yield_adapter_sta.Dispatcher.Routing.Deposits.{logged}
use solana_yield_adapter_sta.Dispatcher.Routing.Wire.{borsh}
use solana_yield_adapter_sta.Prelude.Bytes.{le_bytes}
use solana_yield_adapter_sta.Dispatcher.Lifecycle.Safety.{IsSafe, IsSound}
use solana_yield_adapter_sta.Dispatcher.Lifecycle.Liveness.{authority_can_toggle}
use solana_yield_adapter_sta.Dispatcher.Directory.Addresses.{address, address-injective}
use solana_yield_adapter_sta.Dispatcher.Transactions.Runs.{Call, toggle_adapter, deposit, settle}
use solana_yield_adapter_sta.Dispatcher.Transactions.Silence.{
  AllSilent, silent_authority, silent_initializer,
}
use solana_yield_adapter_sta.Dispatcher.Transactions.Availability.{stays_available}
use solana_yield_adapter_sta.Dispatcher.Transactions.Orders.{toggles-commute}
use solana_yield_adapter_sta.Tests.Directory.{
  spelling, spelling-FindsByBump, spelling-CollisionFree, spelled, entry_key, entry_info,
  entered_world, entered_world-held, entered_world-IsSafe,
}
use solana_yield_adapter_sta.Tests.Fixtures.{
  account, accepting-KeepsAccounts, initializer, caller, vault, active_entry, deposit_args,
}

-- Somebody deposits, and the initializer tries to pause the adapter.
abbrev others : List (List Call)
others =
    (deposit (vault ∷ entry_info ∷ []) deposit_args ∷ [])
    ∷ (toggle_adapter (initializer ∷ entry_info ∷ []) ∷ [])
    ∷ []

-- The adapter's authority pauses it.
abbrev pausing : List (List Call)
pausing = (toggle_adapter (caller ∷ entry_info ∷ []) ∷ []) ∷ []

others-AllSilent : AllSilent 9 others
others-AllSilent =
    ((λ h. absurd (ground (arith, h)), tt), ((λ h. absurd (ground (arith, h)), tt), tt))

pausing-AllSilent : AllSilent initializer_key pausing
pausing-AllSilent = ((λ h. absurd (ground (arith, h)), tt), tt)

silent_authority_example :
    (settle spelled others entered_world).accounts entry_key ≡ some (adapter active_entry)
silent_authority_example =
    silent_authority spelled accepting-KeepsAccounts others entered_world entry_key active_entry
      entered_world-held others-AllSilent

-- The seeds begin with the byte 100.
entry_key-ne : 77 ≢ entry_key
unfolding adapter_seeds
entry_key-ne h = absurd (omega arith)

entered_world-free : entered_world.accounts 77 ≡ none
entered_world-free = elim (Bool-cases (77 == entry_key)) [
  | inr e ↦ rw e refl
  | inl e ↦ absurd (entry_key-ne (==→eq 77 entry_key e))
]

silent_initializer_example : (settle spelled pausing entered_world).accounts 77 ≡ none
silent_initializer_example =
    silent_initializer spelled accepting-KeepsAccounts pausing entered_world 77 entered_world-IsSafe
      entered_world-free pausing-AllSilent

-- What the adapter's program leaves.
abbrev accepted_world : World
accepted_world = record (settle spelled others entered_world) {
  return_data = some (30, le_bytes 8 77);
}

stays_available_example :
    (Deposit.process spelled.invoke spelled.deposit_to_vec spelling
        (caller ∷ entry_info ∷ vault ∷ [])
        deposit_args
        (settle spelled others entered_world)
      ≡ ok (
        tt,
        logged (record { signer = caller; adapter = active_entry }) deposit_args accepted_world,
      ))
    × (ToggleAdapter.process spelling
          (caller ∷ entry_info ∷ [])
          (settle spelled others entered_world)
        ≡ ok (tt, toggled caller entry_info active_entry (settle spelled others entered_world)))
stays_available_example =
    stays_available spelled accepting-KeepsAccounts spelling-FindsByBump others entered_world
      entered_world-IsSafe entry_info active_entry entered_world-held others-AllSilent caller caller
      (vault ∷ []) [] deposit_args (borsh 1000 (3 ∷ 8 ∷ [])) accepted_world refl refl refl
      (ground arith) refl refl refl refl refl refl

-- A second adapter of the same authority.
abbrev second_entry : Adapter
second_entry = record active_entry { program_id = 31 }

abbrev second_key : Pubkey
second_key = address spelling 31 9

abbrev second_info : AccountInfo
second_info = account second_key

keys-ne : entry_key ≢ second_key
keys-ne e =
    let (same, _) =
      address-injective spelling spelling-CollisionFree active_entry.program_id
        active_entry.authority second_entry.program_id second_entry.authority (ground arith)
        (ground arith) (ground arith) (ground arith) e in
    absurd (omega (arith, same))

abbrev two_world : World
two_world = record entered_world {
  accounts = update entered_world.accounts second_key (adapter second_entry);
}

two_world-first : two_world.accounts entry_key ≡ some (adapter active_entry)
two_world-first = elim (Bool-cases (entry_key == second_key)) [
  | inl e ↦ absurd (keys-ne (==→eq entry_key second_key e))
  | inr e ↦ rw e entered_world-held
]

two_world-second : two_world.accounts second_key ≡ some (adapter second_entry)
two_world-second = rw (==-refl second_key) refl

two_world-IsSafe : IsSafe spelling two_world.accounts
two_world-IsSafe k = elim (Bool-cases (k == second_key)) [
  | inr e ↦ rw e (entered_world-IsSafe k)
  | inl e ↦ rw e (
      subst (λ i. IsSound spelling i (some (adapter second_entry))) (sym (==→eq k second_key e))
        (ground arith, ground arith, ground arith, ground arith, ground arith, ground arith, refl))
]

toggles-commute_example :
    (w₁₂ : World) × (w₂₁ : World) × (ToggleAdapter.process spelling
        (caller ∷ second_info ∷ [])
        (toggled caller entry_info active_entry two_world)
      ≡ ok (tt, w₁₂))
    × (ToggleAdapter.process spelling
          (caller ∷ entry_info ∷ [])
          (toggled caller second_info second_entry two_world)
        ≡ ok (tt, w₂₁))
    × ((k : Pubkey) → w₁₂.accounts k ≡ w₂₁.accounts k)
toggles-commute_example =
    toggles-commute spelling caller entry_info [] caller second_info [] two_world
      (toggled caller entry_info active_entry two_world)
      (toggled caller second_info second_entry two_world) keys-ne
      (authority_can_toggle spelling spelling-FindsByBump two_world two_world-IsSafe entry_info
        active_entry two_world-first caller [] refl refl refl refl (ground arith))
      (authority_can_toggle spelling spelling-FindsByBump two_world two_world-IsSafe second_info
        second_entry two_world-second caller [] refl refl refl refl (ground arith))
