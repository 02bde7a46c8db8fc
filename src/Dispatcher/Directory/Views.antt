-- ===== src/Dispatcher/Directory/Views.antt =====
-- The directory that the accounts spell, and what writing an account does to it.
use solana_yield_adapter_sta.Prelude.{
  ◌≡◌, ◌<◌, ◌^◌, refl, inl, inr, arith, ◌==◌, ◌&&◌, ==→eq, ==-refl, Bool-cases, if◌then◌else◌,
  Option, some, none,
}
use mathlib.Core.Path.{ap₂}
use solana_yield_adapter_sta.Types.Dispatcher.{
  DispatcherAccount, Adapter, adapter, Registry, registry,
}
use solana_yield_adapter_sta.Solana.Accounts.{Pubkey}
use solana_yield_adapter_sta.Solana.Anchor.{Chain}
use solana_yield_adapter_sta.Solana.World.{update}
use solana_yield_adapter_sta.Dispatcher.State.{id, registry_seeds}
use solana_yield_adapter_sta.Dispatcher.Lifecycle.Changes.{Accounts}
use solana_yield_adapter_sta.Dispatcher.Directory.Addresses.{
  CollisionFree, address, address-injective, address-ne-registry,
}

-- By program and authority.
abbrev pub Directory : Type 0
Directory = Pubkey → Pubkey → Option Adapter

abbrev entry_of : Option DispatcherAccount → Option Adapter
entry_of (some (adapter a)) = some a
entry_of (some (registry r)) = none
entry_of none = none

abbrev pub view : Chain → Accounts → Directory
view c f p a = entry_of (f (address c p a))

-- The directory with one entry more, under its own program and authority.
abbrev pub insert : Adapter → Directory → Directory
insert x d p a = if (p == x.program_id) && (a == x.authority) then some x else d p a

-- Equal for all keys of 32 bytes.
abbrev pub Agrees : Directory → Directory → Type 0
Agrees d d' = (p a : Pubkey) → p < 2 ^ 256 → a < 2 ^ 256 → d p a ≡ d' p a

module _ (c : Chain) (free : CollisionFree c) (f : Accounts) where
  -- The registry's account is none of the directory.
  pub view-registry :
      (r : Registry)
      → Agrees
          (view c (update f (c.find_program_address registry_seeds id).0 (registry r)))
          (view c f)
  view-registry r p a h k =
      elim (Bool-cases (address c p a == (c.find_program_address registry_seeds id).0)) [
        | inl e ↦ absurd (address-ne-registry c free p a (==→eq _ _ e))
        | inr e ↦ rw e refl
      ]

  -- Writing an adapter's account where its keys lead is an insertion.
  pub view-adapter :
      (x : Adapter)
      → x.program_id < 2 ^ 256
      → x.authority < 2 ^ 256
      → Agrees
          (view c (update f (address c x.program_id x.authority) (adapter x)))
          (insert x (view c f))
  view-adapter x hp ha p a h k =
      elim (Bool-cases (address c p a == address c x.program_id x.authority)) [
        | inl e ↦
            let (same_program, same_authority) =
              address-injective c free p a x.program_id x.authority h k hp ha (==→eq _ _ e) in
            ground (arith, e)
        | inr e ↦ elim (Bool-cases ((p == x.program_id) && (a == x.authority))) [
          | inr n ↦ rw (e, n) refl
          | inl y ↦
              let same_program : p ≡ x.program_id = ground arith in
              let same_authority : a ≡ x.authority = ground arith in
              let same : address c p a ≡ address c x.program_id x.authority =
                ap₂ (address c) same_program same_authority in
              absurd (ground (arith, same, ==-refl (address c p a)))
        ]
      ]
