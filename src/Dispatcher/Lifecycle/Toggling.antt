-- ===== src/Dispatcher/Lifecycle/Toggling.antt =====
-- `toggle_adapter` (programs/dispatcher/src/instructions/toggle_adapter.rs).
use solana_yield_adapter_sta.Prelude.{
  ◌≡◌, ◌≤◌, ◌-◌, ◌↔◌, inl, inr, arith, true, List, [], ◌∷◌, ◌++◌, some, Option-cases,
}
use solana_yield_adapter_sta.Types.{toggle}
use solana_yield_adapter_sta.Types.Dispatcher.{Adapter, adapter, registry}
use solana_yield_adapter_sta.Interface.{from_u8, as_u8}
use solana_yield_adapter_sta.Solana.Accounts.{AccountInfo}
use solana_yield_adapter_sta.Solana.Anchor.{Chain}
use solana_yield_adapter_sta.Solana.Result.{ok}
use solana_yield_adapter_sta.Solana.World.{World, update}
use solana_yield_adapter_sta.Dispatcher.State.{id, adapter_seeds}
use solana_yield_adapter_sta.Dispatcher.ToggleAdapter

module _ (c : Chain) where
  -- The address of an adapter account follows from its program, its authority and its bump.
  abbrev pub AtItsAddress : Adapter → AccountInfo → Type 0
  AtItsAddress a info =
      c.create_program_address (adapter_seeds a.program_id a.authority ++ ((a.bump ∷ []) ∷ [])) id
      ≡ some info.key

  -- The signer is the adapter's authority, the adapter is active or paused, and its status has
  -- been exchanged for the other one; the event reports the new status.
  abbrev pub IsToggled : AccountInfo → AccountInfo → World → World → Type 0
  IsToggled authority info w w' =
      (authority.is_signer ≡ true)
      × (authority.is_writable ≡ true)
      × (info.is_writable ≡ true)
      × (a : Adapter) × (w.accounts info.key ≡ some (adapter a))
      × (a.authority ≡ authority.key)
      × AtItsAddress a info
      × (a.status ≤ 1)
      × (w' ≡ record w {
        accounts = update w.accounts info.key (adapter (record a { status = 1 - a.status }));
        log =
            toggle (record {
              authority = authority.key;
              adapter = info.key;
              program_id = a.program_id;
              status = 1 - a.status;
            })
            ∷ w.log;
      })

  -- A toggle succeeds exactly when the adapter's own authority signs as a writable account, the
  -- adapter's account is writable and stands at the address that its program, authority and bump
  -- derive, and the adapter is active or paused; it exchanges the two, logs the new status, and
  -- changes nothing else.
  pub toggle-IsToggled :
      (authority info : AccountInfo) (rest : List AccountInfo) (w w' : World)
      → (ToggleAdapter.process c (authority ∷ info ∷ rest) w ≡ ok (tt, w'))
        ↔ IsToggled authority info w w'
  unfolding ToggleAdapter.process from_u8 as_u8
  toggle-IsToggled authority info rest w w' = (forward, λ t. ground arith)
    where
      forward :
          ToggleAdapter.process c (authority ∷ info ∷ rest) w ≡ ok (tt, w')
          → IsToggled authority info w w'
      forward h = elim (Option-cases (w.accounts info.key)) [
        | inl e ↦ absurd (ground arith)
        | inr (registry r, e) ↦ absurd (ground arith)
        | inr (adapter a, e) ↦ (
          ground arith,
          ground arith,
          ground arith,
          a,
          e,
          ground arith,
          ground arith,
          ground arith,
          ground arith,
        )
      ]
