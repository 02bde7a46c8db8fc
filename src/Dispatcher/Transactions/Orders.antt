-- ===== src/Dispatcher/Transactions/Orders.antt =====
-- Toggles of different adapters, in either order.
use solana_yield_adapter_sta.Prelude.{
  ◌≡◌, ◌≢◌, ◌-◌, ◌∙◌, ap, sym, refl, inl, inr, arith, ◌==◌, ==→eq, Bool-cases, List, ◌∷◌, some,
  false,
}
use solana_yield_adapter_sta.Types.Dispatcher.{Adapter, adapter}
use solana_yield_adapter_sta.Solana.Accounts.{AccountInfo, Pubkey}
use solana_yield_adapter_sta.Solana.Anchor.{Chain}
use solana_yield_adapter_sta.Solana.Result.{ok}
use solana_yield_adapter_sta.Solana.World.{World, update}
use solana_yield_adapter_sta.Dispatcher.ToggleAdapter
use solana_yield_adapter_sta.Dispatcher.Lifecycle.Toggling.{toggle-IsToggled}
use solana_yield_adapter_sta.Dispatcher.Lifecycle.Changes.{Accounts}
use solana_yield_adapter_sta.Dispatcher.Outcomes.Toggles.{toggled}
use solana_yield_adapter_sta.Types.Dispatcher.{DispatcherAccount}

-- Writes at different addresses, in either order.
update_comm :
    (f : Accounts) (k j : Pubkey) (x y : DispatcherAccount)
    → k ≢ j
    → (i : Pubkey) → update (update f k x) j y i ≡ update (update f j y) k x i
update_comm f k j x y h i = elim (Bool-cases (i == k)) [
  | inr n ↦ rw n refl
  | inl e ↦ elim (Bool-cases (i == j)) [
    | inr n ↦ rw (e, n) refl
    | inl e' ↦ absurd (h (sym (==→eq i k e) ∙ ==→eq i j e'))
  ]
]

module _ (c : Chain) (authority info : AccountInfo) (rest : List AccountInfo) (w w₁ : World) where
  -- A toggle that has succeeded is the toggle of the adapter that stood there.
  known :
      ToggleAdapter.process c (authority ∷ info ∷ rest) w ≡ ok (tt, w₁)
      → (a : Adapter) × (w₁ ≡ toggled authority info a w)
        × ((v : World)
            → v.accounts info.key ≡ some (adapter a)
            → ToggleAdapter.process c (authority ∷ info ∷ rest) v
              ≡ ok (tt, toggled authority info a v))
        × (w.accounts info.key ≡ some (adapter a))
  known h =
      let (signed, writable, open_info, a, found, who, address, small, result) =
        (toggle-IsToggled c authority info rest w w₁).0 h in
      (
        a,
        result,
        λ v held.
            (toggle-IsToggled c authority info rest v (toggled authority info a v)).1
              (signed, writable, open_info, a, held, who, address, small, refl),
        found,
      )

-- Two toggles of accounts with different addresses that both succeed in a world also succeed one
-- after the other, in either order, and leave the same accounts.
pub toggles-commute :
    (c : Chain) (authority info : AccountInfo) (rest : List AccountInfo)
    (authority' info' : AccountInfo) (rest' : List AccountInfo) (w w₁ w₂ : World)
    → info.key ≢ info'.key
    → ToggleAdapter.process c (authority ∷ info ∷ rest) w ≡ ok (tt, w₁)
    → ToggleAdapter.process c (authority' ∷ info' ∷ rest') w ≡ ok (tt, w₂)
    → (w₁₂ : World) × (w₂₁ : World) × (ToggleAdapter.process c (authority' ∷ info' ∷ rest') w₁
        ≡ ok (tt, w₁₂))
      × (ToggleAdapter.process c (authority ∷ info ∷ rest) w₂ ≡ ok (tt, w₂₁))
      × ((k : Pubkey) → w₁₂.accounts k ≡ w₂₁.accounts k)
toggles-commute c authority info rest authority' info' rest' w w₁ w₂ other h h' =
    let (a, result, again, held) = known c authority info rest w w₁ h in
    let (a', result', again', held') = known c authority' info' rest' w w₂ h' in
    let apart : (info'.key == info.key) ≡ false = ground arith in
    let apart' : (info.key == info'.key) ≡ false = ground arith in
    let kept' : w₁.accounts info'.key ≡ some (adapter a') =
      ap (λ (v : World). v.accounts info'.key) result ∙ rw apart held' in
    let kept : w₂.accounts info.key ≡ some (adapter a) =
      ap (λ (v : World). v.accounts info.key) result' ∙ rw apart' held in
    (
      toggled authority' info' a' w₁,
      toggled authority info a w₂,
      again' w₁ kept',
      again w₂ kept,
      λ k.
          ap (λ (v : World). (toggled authority' info' a' v).accounts k) result
          ∙ update_comm w.accounts info.key info'.key (adapter (record a { status = 1 - a.status }))
              (adapter (record a' { status = 1 - a'.status })) other k
          ∙ ap (λ (v : World). (toggled authority info a v).accounts k) (sym result'),
    )
