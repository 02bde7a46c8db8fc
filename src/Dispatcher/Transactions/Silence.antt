-- ===== src/Dispatcher/Transactions/Silence.antt =====
-- What nobody can do without a signature, over whole runs of transactions.
use solana_yield_adapter_sta.Prelude.{
  ◌≡◌, ◌∙◌, ap, sym, subst, inl, inr, ◌==◌, ==→eq, Bool-cases, List, some, none, All,
}
use solana_yield_adapter_sta.Types.Dispatcher.{DispatcherAccount, Adapter, adapter, registry}
use solana_yield_adapter_sta.Solana.Accounts.{AccountInfo, Pubkey}
use solana_yield_adapter_sta.Solana.Anchor.{Chain}
use solana_yield_adapter_sta.Solana.World.{World, update}
use solana_yield_adapter_sta.Dispatcher.RegistryInit.{initializer_key}
use solana_yield_adapter_sta.Dispatcher.Lifecycle.Steps.{Setting, KeepsAccounts}
use solana_yield_adapter_sta.Dispatcher.Lifecycle.Changes.{
  Accounts, HeadSigned, Change, same, founded, registered, toggled,
}
use solana_yield_adapter_sta.Dispatcher.Lifecycle.Safety.{IsSafe, IsSound}
use solana_yield_adapter_sta.Dispatcher.Transactions.Runs.{
  Call, accounts_of, settle, settle-keeps, execute-Change, execute-IsSafe,
}

-- The key signs for none of the instructions, as the account that each of them takes first.
abbrev pub Silent : Pubkey → Call → Type 0
Silent k c = ¬ HeadSigned (accounts_of c) k

abbrev pub AllSilent : Pubkey → List (List Call) → Type 0
AllSilent k ts = All (All (Silent k)) ts

-- An update at an address that holds something else than what stands at `j`.
update-kept :
    (f g : Accounts) (k j : Pubkey) (x : DispatcherAccount)
    → g ≡ update f k x
    → ¬ (f k ≡ f j)
    → g j ≡ f j
update-kept f g k j x e other = elim (Bool-cases (j == k)) [
  | inl y ↦ absurd (other (ap f (sym (==→eq j k y))))
  | inr n ↦ ap (λ (h : Accounts). h j) e ∙ rw n
]

module _ (c : Chain) (signers : List AccountInfo) (f g : Accounts) (j : Pubkey) where
  Change-kept :
      (a : Adapter)
      → Change c signers f g
      → ¬ HeadSigned signers a.authority
      → f j ≡ some (adapter a)
      → g j ≡ f j
  Change-kept a (same e) silent held = ap (λ (h : Accounts). h j) e
  Change-kept a (founded k bump signed empty found e) silent held =
      update-kept f g k j _ e (λ p. cc)
  Change-kept a (registered i r k b named signed empty sound e) silent held =
      update-kept f g k j _ e (λ p. cc)
  Change-kept a (toggled k b there signed small e) silent held = update-kept f g k j _ e (λ p.
      let same_entry : some (adapter b) ≡ some (adapter a) = sym there ∙ p ∙ held in
      silent (subst (HeadSigned signers) (cc same_entry) signed))

  Change-empty :
      Change c signers f g
      → IsSafe c f
      → ¬ HeadSigned signers initializer_key
      → f j ≡ none
      → g j ≡ none
  Change-empty (same e) safe silent free = ap (λ (h : Accounts). h j) e ∙ free
  Change-empty (founded k bump signed empty found e) safe silent free = absurd (silent signed)
  Change-empty (registered i r k b held signed empty sound e) safe silent free =
      let (named, _) : IsSound c i (some (registry r)) = rw held at (safe i) in
      absurd (silent (subst (HeadSigned signers) named signed))
  Change-empty (toggled k b there signed small e) safe silent free =
      update-kept f g k j _ e (λ p. cc) ∙ free

module _ (s : Setting) (keeps : KeepsAccounts s.invoke) (ts : List (List Call)) (w : World)
    (k : Pubkey) where
  -- Where invoked programs keep the dispatcher's accounts: in every run of transactions in which
  -- the authority of an adapter signs for no instruction as its first account, the adapter's entry
  -- is what it was at the start, whatever anybody else sends and whichever transactions fail.
  pub silent_authority :
      (a : Adapter)
      → w.accounts k ≡ some (adapter a)
      → AllSilent a.authority ts
      → (settle s ts w).accounts k ≡ some (adapter a)
  silent_authority a held silent =
      settle-keeps s (λ v. v.accounts k ≡ some (adapter a)) (Silent a.authority) (λ v p. p)
        (λ c v v' q h p.
          Change-kept s.chain (accounts_of c) v.accounts v'.accounts k a
            (execute-Change s keeps c v v' h) q p
          ∙ p)
        ts w silent held

  -- Where invoked programs keep the dispatcher's accounts: from a safe world, in every run of
  -- transactions in which the configured initializer signs for no instruction as its first account,
  -- an address where nothing stands stays empty: no registry and no adapter is added.
  pub silent_initializer :
      IsSafe s.chain w.accounts
      → w.accounts k ≡ none
      → AllSilent initializer_key ts
      → (settle s ts w).accounts k ≡ none
  silent_initializer safe free silent =
      (settle-keeps s (λ v. IsSafe s.chain v.accounts × (v.accounts k ≡ none))
        (Silent initializer_key) (λ v p. p)
        (λ c v v' q h p. (
          execute-IsSafe s keeps c v v' h p.0,
          Change-empty s.chain (accounts_of c) v.accounts v'.accounts k
              (execute-Change s keeps c v v' h) p.0 q p.1,
        ))
        ts w silent (safe, free)).1
