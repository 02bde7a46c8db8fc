-- ===== src/Dispatcher/Directory/Runs.antt =====
-- What the directory shows in every world that the dispatcher's instructions reach.
use solana_yield_adapter_sta.Prelude.{
  ℕ, ◌≡◌, ◌<◌, ◌^◌, ap, subst, inl, inr, arith, List, some, Option-cases,
}
use solana_yield_adapter_sta.Types.Dispatcher.{Adapter, adapter, registry}
use solana_yield_adapter_sta.Solana.Accounts.{AccountInfo, Pubkey}
use solana_yield_adapter_sta.Solana.World.{World}
use solana_yield_adapter_sta.Dispatcher.Lifecycle.Steps.{Setting, KeepsAccounts, Reach, here, next}
use solana_yield_adapter_sta.Dispatcher.Lifecycle.Changes.{IsEntry}
use solana_yield_adapter_sta.Dispatcher.Lifecycle.Safety.{IsSafe, Reach-IsSafe}
use solana_yield_adapter_sta.Dispatcher.Directory.Addresses.{
  CollisionFree, address, address-injective,
}
use solana_yield_adapter_sta.Dispatcher.Directory.Views.{Directory, view}
use solana_yield_adapter_sta.Dispatcher.Directory.Moves.{Move, step-Move}

-- Moves one after the other, each with the accounts that it was given.
pub data Moves (d : Directory) : Directory → Type 0 where
  still : Moves d d
  moved :
      {e e' : Directory} (signers : List AccountInfo) → Moves d e → Move signers e e' → Moves d e'

-- Every run of instructions and other transactions that starts in a safe world is, seen as a
-- directory, a sequence of the abstract moves, where the hash of the seeds has no collisions and
-- invoked programs keep the dispatcher's accounts.
pub Reach-Moves :
    (s : Setting)
    → CollisionFree s.chain
    → KeepsAccounts s.invoke
    → (w w' : World) → IsSafe s.chain w.accounts
    → Reach s w w'
    → Moves (view s.chain w.accounts) (view s.chain w'.accounts)
Reach-Moves s free keeps w w' safe here = still
Reach-Moves s free keeps w w' safe (next {u} r st) =
    moved _ (Reach-Moves s free keeps w u safe r)
      (step-Move s u w' free keeps (Reach-IsSafe s keeps w u safe r) st)

-- In every world that the instructions reach from a safe one, an adapter that the directory shows
-- for a program and an authority of 32 bytes is one of just that program and that authority, where
-- the hash of the seeds has no collisions and invoked programs keep the dispatcher's accounts.
pub Reach-view :
    (s : Setting)
    → CollisionFree s.chain
    → KeepsAccounts s.invoke
    → (w w' : World) → IsSafe s.chain w.accounts
    → Reach s w w'
    → (p a : Pubkey) (x : Adapter) → p < 2 ^ 256
    → a < 2 ^ 256
    → view s.chain w'.accounts p a ≡ some x
    → (x.program_id ≡ p) × (x.authority ≡ a)
Reach-view s free keeps w w' safe r p a x hp ha shown =
    let sound : IsSafe s.chain w'.accounts = Reach-IsSafe s keeps w w' safe r in
    elim (Option-cases (w'.accounts (address s.chain p a))) [
      | inl e ↦ absurd (ground arith)
      | inr (registry y, e) ↦ absurd (ground arith)
      | inr (adapter y, e) ↦
          let (_, _, _, _, small_authority, small_program, found) : IsEntry s.chain
              (address s.chain p a) y =
            rw e at (sound (address s.chain p a)) in
          let same : y ≡ x = ground arith in
          let own : (y.program_id ≡ p) × (y.authority ≡ a) =
            address-injective s.chain free y.program_id y.authority p a small_program
              small_authority hp ha (ap (λ (k : Pubkey × ℕ). k.0) found) in
          subst (λ (z : Adapter). (z.program_id ≡ p) × (z.authority ≡ a)) same own
    ]
