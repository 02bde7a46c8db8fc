-- ===== src/Dispatcher/Lifecycle/Authority.antt =====
-- Who has to sign for a change of the dispatcher's accounts.
use solana_yield_adapter_sta.Prelude.{
  ◌≡◌, ◌≢◌, ◌∙◌, ap, sym, subst, inl, inr, Bool-cases, ◌==◌, List, Option, some, none, ==→eq,
}
use solana_yield_adapter_sta.Types.Dispatcher.{DispatcherAccount, Adapter, adapter, registry}
use solana_yield_adapter_sta.Solana.Accounts.{AccountInfo, Pubkey}
use solana_yield_adapter_sta.Solana.Anchor.{Chain}
use solana_yield_adapter_sta.Solana.World.{World, update}
use solana_yield_adapter_sta.Dispatcher.RegistryInit.{initializer_key}
use solana_yield_adapter_sta.Dispatcher.Lifecycle.Steps.{Setting, KeepsAccounts, Step}
use solana_yield_adapter_sta.Dispatcher.Lifecycle.Changes.{
  Accounts, HeadSigned, Change, same, founded, registered, toggled, passed, step-Change,
}
use solana_yield_adapter_sta.Dispatcher.Lifecycle.Safety.{IsSafe, IsSound}

-- Where an update changes what stands at `j`, it is the update of `j`.
update-changed :
    (f : Accounts) (k j : Pubkey) (x : DispatcherAccount) → update f k x j ≢ f j → j ≡ k
update-changed f k j x h = elim (Bool-cases (j == k)) [
  | inl e ↦ ==→eq j k e
  | inr e ↦ absurd (h (rw e))
]

module _ (c : Chain) (signers : List AccountInfo) (f g : Accounts) (j : Pubkey) where
  -- The address that changed is the one that was written, and what stood there is known.
  written_at :
      (k : Pubkey) (x : DispatcherAccount) (o : Option DispatcherAccount)
      → g ≡ update f k x
      → g j ≢ f j
      → f j ≡ o
      → f k ≡ o
  written_at k x o e changed found =
      subst (λ i. f i ≡ o) (update-changed f k j x (subst (λ (h : Accounts). h j ≢ f j) e changed))
        found

  Change-signed_by_authority :
      (a : Adapter)
      → Change c signers f g
      → f j ≡ some (adapter a)
      → g j ≢ f j
      → HeadSigned signers a.authority
  Change-signed_by_authority a (same e) found changed =
      absurd (changed (ap (λ (h : Accounts). h j) e))
  Change-signed_by_authority a (founded k bump signed free derived e) found changed =
      cc (free, written_at k _ _ e changed found)
  Change-signed_by_authority a (registered i r k b held signed free sound e) found changed =
      cc (free, written_at k _ _ e changed found)
  Change-signed_by_authority a (toggled k b held signed small e) found changed =
      let same_entry : some (adapter b) ≡ some (adapter a) =
        sym held ∙ written_at k _ _ e changed found in
      subst (HeadSigned signers) (cc same_entry) signed

  Change-signed_by_initializer :
      (a : Adapter)
      → Change c signers f g
      → IsSafe c f
      → f j ≡ none
      → g j ≡ some (adapter a)
      → HeadSigned signers initializer_key
  Change-signed_by_initializer a (same e) safe free new =
      cc (free, new, ap (λ (h : Accounts). h j) e)
  Change-signed_by_initializer a (founded k bump signed empty derived e) safe free new = signed
  Change-signed_by_initializer a (registered i r k b held signed empty sound e) safe free new =
      let (named, _) : IsSound c i (some (registry r)) = rw held at (safe i) in
      subst (HeadSigned signers) named signed
  Change-signed_by_initializer a (toggled k b held signed small e) safe free new =
      let changed : g j ≢ f j = λ p. cc (free, new, p) in cc (held, written_at k _ _ e changed free)

module _ (s : Setting) (keeps : KeepsAccounts s.invoke) (w w' : World) (st : Step s w w')
    (k : Pubkey) (a : Adapter) where
  -- Where invoked programs keep the dispatcher's accounts, no
  -- instruction changes the entry of an adapter unless that adapter's authority is its first
  -- account and has signed.
  step-signed_by_authority :
      w.accounts k ≡ some (adapter a)
      → w'.accounts k ≢ w.accounts k
      → HeadSigned (passed st) a.authority
  step-signed_by_authority =
      Change-signed_by_authority s.chain (passed st) w.accounts w'.accounts k a
        (step-Change s w w' keeps st)

  -- Where invoked programs keep the dispatcher's accounts: in a
  -- safe world no instruction adds an adapter unless the configured initializer is its first
  -- account and has signed.
  step-signed_by_initializer :
      IsSafe s.chain w.accounts
      → w.accounts k ≡ none
      → w'.accounts k ≡ some (adapter a)
      → HeadSigned (passed st) initializer_key
  step-signed_by_initializer =
      Change-signed_by_initializer s.chain (passed st) w.accounts w'.accounts k a
        (step-Change s w w' keeps st)
