-- ===== src/Dispatcher/Directory/Moves.antt =====
-- The directory as an abstract state machine, and the dispatcher's steps as its moves.
use solana_yield_adapter_sta.Prelude.{ℕ, ◌≡◌, ◌≤◌, ◌-◌, ◌∙◌, ap, sym, subst, refl, List, some, none}
use solana_yield_adapter_sta.Types.Dispatcher.{DispatcherAccount, Adapter, registry}
use solana_yield_adapter_sta.Solana.Accounts.{AccountInfo, Pubkey}
use solana_yield_adapter_sta.Solana.Anchor.{Chain}
use solana_yield_adapter_sta.Solana.World.{World, update}
use solana_yield_adapter_sta.Dispatcher.RegistryInit.{initializer_key}
use solana_yield_adapter_sta.Dispatcher.Lifecycle.Steps.{Setting, KeepsAccounts, Step}
use solana_yield_adapter_sta.Dispatcher.Lifecycle.Changes.{
  Accounts, HeadSigned, IsEntry, Change, same, founded, registered, toggled, passed, step-Change,
}
use solana_yield_adapter_sta.Dispatcher.Lifecycle.Safety.{IsSafe, IsSound}
use solana_yield_adapter_sta.Dispatcher.Directory.Addresses.{CollisionFree, address}
use solana_yield_adapter_sta.Dispatcher.Directory.Views.{
  Directory, view, insert, Agrees, view-registry, view-adapter,
}

-- Nothing changes; the initializer enters an adapter whose place is free; or an authority exchanges
-- active and paused for its own adapter.
pub data Move (signers : List AccountInfo) (d d' : Directory) : Type 0 where
  stay : Agrees d' d → Move signers d d'
  enter :
      (x : Adapter)
      → HeadSigned signers initializer_key
      → d x.program_id x.authority ≡ none
      → Agrees d' (insert x d)
      → Move signers d d'
  switch :
      (x : Adapter)
      → HeadSigned signers x.authority
      → d x.program_id x.authority ≡ some x
      → x.status ≤ 1
      → Agrees d' (insert (record x { status = 1 - x.status }) d)
      → Move signers d d'

-- An agreement, carried along an equation of accounts and one of addresses.
carried :
    (c : Chain) (f g : Accounts) (k j : Pubkey) (x : DispatcherAccount) (d : Directory)
    → j ≡ k
    → g ≡ update f k x
    → Agrees (view c (update f j x)) d
    → Agrees (view c g) d
carried c f g k j x d same_key e h p a hp ha =
    ap (λ (m : Accounts). view c m p a) (e ∙ ap (λ i. update f i x) (sym same_key)) ∙ h p a hp ha

module _ (c : Chain) (free : CollisionFree c) {signers : List AccountInfo} (f g : Accounts) where
  Change-Move : Change c signers f g → IsSafe c f → Move signers (view c f) (view c g)
  Change-Move (same e) safe = stay (λ p a hp ha. ap (λ (m : Accounts). view c m p a) e)
  Change-Move (founded k bump signed empty found e) safe =
      stay (carried c f g k _ _ _ (ap (λ (r : Pubkey × ℕ). r.0) found) e (view-registry c free f _))
  Change-Move (registered j r k x held signed empty sound e) safe =
      let (named, _) : IsSound c j (some (registry r)) = rw held at (safe j) in
      let (_, _, _, _, ha, hp, found) = sound in
      let at_key : address c x.program_id x.authority ≡ k = ap (λ (r : Pubkey × ℕ). r.0) found in
      enter x (subst (HeadSigned signers) named signed) (rw (at_key, empty) refl)
        (carried c f g k _ _ _ at_key e (view-adapter c free f x hp ha))
  Change-Move (toggled k x held signed small e) safe =
      let (_, _, _, _, ha, hp, found) : IsEntry c k x = rw held at (safe k) in
      let at_key : address c x.program_id x.authority ≡ k = ap (λ (r : Pubkey × ℕ). r.0) found in
      switch x signed (rw (at_key, held) refl) small (
        carried c f g k _ _ _ at_key e
          (view-adapter c free f (record x { status = 1 - x.status }) hp ha))

-- Seen as a directory of adapters by program and authority, every instruction of the dispatcher
-- makes one of three moves, where the hash of the seeds has no collisions and invoked programs keep
-- the dispatcher's accounts: from a safe world, nothing changes for any keys of 32 bytes; or the
-- configured initializer has signed and one entry is added where none was; or the authority of one
-- entry has signed and its status alone is exchanged between active and paused.
pub step-Move :
    (s : Setting) (w w' : World)
    → CollisionFree s.chain
    → KeepsAccounts s.invoke
    → IsSafe s.chain w.accounts
    → (st : Step s w w') → Move (passed st) (view s.chain w.accounts) (view s.chain w'.accounts)
step-Move s w w' free keeps safe st =
    Change-Move s.chain free w.accounts w'.accounts (step-Change s w w' keeps st) safe
