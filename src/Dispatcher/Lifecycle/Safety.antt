-- ===== src/Dispatcher/Lifecycle/Safety.antt =====
-- The well-formedness of the dispatcher's accounts, and what may become of them.
use solana_yield_adapter_sta.Prelude.{
  ℕ, ⊤, ◌≡◌, ◌-◌, sym, subst, refl, inl, inr, Bool-cases, ◌==◌, List, Option, some, none, arith,
  ==→eq,
}
use solana_yield_adapter_sta.Types.Dispatcher.{DispatcherAccount, adapter, registry}
use solana_yield_adapter_sta.Solana.Accounts.{AccountInfo, Pubkey}
use solana_yield_adapter_sta.Solana.Anchor.{Chain}
use solana_yield_adapter_sta.Solana.World.{World, update}
use solana_yield_adapter_sta.Dispatcher.State.{registry_seeds}
use solana_yield_adapter_sta.Dispatcher.RegistryInit.{initializer_key}
use solana_yield_adapter_sta.Dispatcher.Lifecycle.Steps.{Setting, KeepsAccounts, Reach, here, next}
use solana_yield_adapter_sta.Dispatcher.Lifecycle.Changes.{
  Accounts, Found, IsEntry, Change, same, founded, registered, toggled, step-Change,
}

-- What may stand at the address `k`.
abbrev pub IsSound : Chain → Pubkey → Option DispatcherAccount → Type 0
IsSound c k none = ⊤
IsSound c k (some (registry r)) =
    (r.initializer ≡ initializer_key) × Found c registry_seeds r.bump k
IsSound c k (some (adapter a)) = IsEntry c k a

abbrev pub IsSafe : Chain → Accounts → Type 0
IsSafe c f = (k : Pubkey) → IsSound c k (f k)

-- What may become of an account: a registry stays, and of an adapter only the status changes,
-- never away from 2.
abbrev pub Evolves : Option DispatcherAccount → Option DispatcherAccount → Type 0
Evolves none o = ⊤
Evolves (some (registry r)) o = o ≡ some (registry r)
Evolves (some (adapter a)) o =
    (status : ℕ) × (o ≡ some (adapter (record a { status = status }))) × (a.status ≡ 2 → status ≡ 2)

module _ (c : Chain) where
  update-IsSafe :
      (f : Accounts) (k : Pubkey) (x : DispatcherAccount)
      → IsSafe c f
      → IsSound c k (some x)
      → IsSafe c (update f k x)
  update-IsSafe f k x safe sound j = elim (Bool-cases (j == k)) [
    | inl e ↦ rw e (subst (λ i. IsSound c i (some x)) (sym (==→eq j k e)) sound)
    | inr e ↦ rw e (safe j)
  ]

  Change-IsSafe :
      {signers : List AccountInfo} {f g : Accounts} → Change c signers f g → IsSafe c f → IsSafe c g
  Change-IsSafe {f = f} (same e) safe = rw e safe
  Change-IsSafe {f = f} (founded k bump signed free derived e) safe =
      rw e (update-IsSafe f k _ safe (refl, derived))
  Change-IsSafe {f = f} (registered j r k a found signed free sound e) safe =
      rw e (update-IsSafe f k _ safe sound)
  Change-IsSafe {f = f} (toggled k a found signed small e) safe =
      let sound : IsEntry c k a = rw found at (safe k) in
      rw e (
        update-IsSafe f k _ safe
          (sound.0, sound.1, sound.2, omega arith, sound.4, sound.5, sound.6))

  Evolves-refl : (o : Option DispatcherAccount) → Evolves o o
  Evolves-refl none = tt
  Evolves-refl (some (registry r)) = refl
  Evolves-refl (some (adapter a)) = (a.status, refl, λ h. h)

  Evolves-trans : (o p q : Option DispatcherAccount) → Evolves o p → Evolves p q → Evolves o q
  Evolves-trans none p q h k = tt
  Evolves-trans (some (registry r)) p q h k = (rw h at k)
  Evolves-trans (some (adapter a)) p q (s, e, keeps) k =
      let (t, e', keeps') : Evolves (some (adapter (record a { status = s }))) q =
        subst (λ x. Evolves x q) e k in
      (t, e', λ h. keeps' (keeps h))

  -- An account that is written where there was none, or over one that it evolves from.
  update-Evolves :
      (f : Accounts) (k : Pubkey) (x : DispatcherAccount)
      → Evolves (f k) (some x)
      → (j : Pubkey) → Evolves (f j) (update f k x j)
  update-Evolves f k x h j = elim (Bool-cases (j == k)) [
    | inl e ↦ rw e (subst (λ i. Evolves (f i) (some x)) (sym (==→eq j k e)) h)
    | inr e ↦ rw e (Evolves-refl (f j))
  ]

  Change-Evolves :
      {signers : List AccountInfo} {f g : Accounts}
      → Change c signers f g
      → (j : Pubkey) → Evolves (f j) (g j)
  Change-Evolves {f = f} (same e) j = rw e (Evolves-refl (f j))
  Change-Evolves {f = f} (founded k bump signed free derived e) j =
      rw e (update-Evolves f k _ (rw free tt) j)
  Change-Evolves {f = f} (registered i r k a found signed free sound e) j =
      rw e (update-Evolves f k _ (rw free tt) j)
  Change-Evolves {f = f} (toggled k a found signed small e) j =
      rw e (update-Evolves f k _ (rw found (1 - a.status, refl, λ h. absurd (omega arith))) j)

module _ (s : Setting) (keeps : KeepsAccounts s.invoke) where
  -- Where invoked programs keep the dispatcher's accounts:
  -- whatever instructions ran since a safe world, in any order and on any accounts: every registry
  -- names the configured initializer, every adapter has an authority, a program and a mint that are
  -- not the default key and a status of at most 2, and each of them stands at the address found
  -- for its own seeds, with the bump that was found.
  pub Reach-IsSafe :
      (w w' : World) → IsSafe s.chain w.accounts → Reach s w w' → IsSafe s.chain w'.accounts
  Reach-IsSafe w w' safe here = safe
  Reach-IsSafe w w' safe (next {u = u} r st) =
      Change-IsSafe s.chain (step-Change s u w' keeps st) (Reach-IsSafe w u safe r)

  -- Where invoked programs keep the dispatcher's accounts: no
  -- sequence of instructions removes an account, changes a registry, or changes anything of an
  -- adapter but its status; and a deprecated adapter stays deprecated.
  pub Reach-Evolves :
      (w w' : World) → Reach s w w' → (k : Pubkey) → Evolves (w.accounts k) (w'.accounts k)
  Reach-Evolves w w' here k = Evolves-refl s.chain (w.accounts k)
  Reach-Evolves w w' (next {u = u} r st) k =
      Evolves-trans s.chain (w.accounts k) (u.accounts k) (w'.accounts k) (Reach-Evolves w u r k)
        (Change-Evolves s.chain (step-Change s u w' keeps st) k)
