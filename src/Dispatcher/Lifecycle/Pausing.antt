-- ===== src/Dispatcher/Lifecycle/Pausing.antt =====
-- What a toggle means for later calls.
use solana_yield_adapter_sta.Prelude.{
  ℕ, ◌≡◌, ◌-◌, ◌∙◌, ap, sym, refl, inl, inr, true, arith, List, ◌∷◌, Option, some, Bool-cases, ◌==◌,
  ==→eq, ==-refl,
}
use solana_yield_adapter_sta.Types.{dispatcher, toggle}
use solana_yield_adapter_sta.Types.Dispatcher.{DispatcherAccount, Adapter, adapter, inactive}
use solana_yield_adapter_sta.Interface.{DepositArgs, from_u8, is_active}
use solana_yield_adapter_sta.Solana.Accounts.{AccountInfo, Pubkey}
use solana_yield_adapter_sta.Solana.Anchor.{Chain}
use solana_yield_adapter_sta.Solana.Result.{Result, ok, err}
use solana_yield_adapter_sta.Solana.World.{World, Invoke, update}
use solana_yield_adapter_sta.Dispatcher.ToggleAdapter
use solana_yield_adapter_sta.Dispatcher.Deposit
use solana_yield_adapter_sta.Dispatcher.Lifecycle.Toggling.{toggle-IsToggled}

-- Writing over what was written, and putting back what had stood there.
update_back :
    (f : Pubkey → Option DispatcherAccount) (k : Pubkey) (x y : DispatcherAccount)
    → f k ≡ some y
    → (j : Pubkey) → update (update f k x) k y j ≡ f j
update_back f k x y h j = elim (Bool-cases (j == k)) [
  | inl e ↦ rw e (sym (ap f (==→eq j k e) ∙ h))
  | inr e ↦ rw e refl
]

module _ (c : Chain) (authority info : AccountInfo) (rest : List AccountInfo) (w w₁ : World) where
  -- What the second of two toggles leaves, given the adapter that the first one found.
  abbrev back : Adapter → World
  back a = record w₁ {
    accounts = update w₁.accounts info.key (adapter a);
    log =
        toggle (record {
          authority = authority.key;
          adapter = info.key;
          program_id = a.program_id;
          status = a.status;
        })
        ∷ w₁.log;
  }

  -- After a toggle that succeeds, the same call succeeds again and puts every account back as it
  -- was before the first.
  pub toggle_twice :
      ToggleAdapter.process c (authority ∷ info ∷ rest) w ≡ ok (tt, w₁)
      → (w₂ : World) × (ToggleAdapter.process c (authority ∷ info ∷ rest) w₁ ≡ ok (tt, w₂))
        × ((k : Pubkey) → w₂.accounts k ≡ w.accounts k)
  toggle_twice h =
      let (signed, writable, open_info, a, found, who, address, small, result) =
        (toggle-IsToggled c authority info rest w w₁).0 h in
      let b : Adapter = record a { status = 1 - a.status } in
      let held : w₁.accounts info.key ≡ some (adapter b) =
        ap (λ (v : World). v.accounts info.key) result ∙ rw (==-refl info.key) refl in
      let restored : record b { status = 1 - b.status } ≡ a = ground arith in
      (
        back a,
        (toggle-IsToggled c authority info rest w₁ (back a)).1 (
          signed,
          writable,
          open_info,
          b,
          held,
          who,
          address,
          omega arith,
          ap back (sym restored),
        ),
        λ k.
            ap (λ (v : World). update v.accounts info.key (adapter a) k) result
            ∙ update_back w.accounts info.key (adapter b) (adapter a) found k,
      )

-- Once a toggle of an active adapter has succeeded, every deposit instruction through the same
-- account fails with Inactive, whatever the adapter program would do, for every caller whose
-- account is a writable signer.
pub toggled-deposit_inactive :
    (c : Chain) (authority info : AccountInfo) (rest : List AccountInfo) (w w₁ : World)
    (a : Adapter)
    → ToggleAdapter.process c (authority ∷ info ∷ rest) w ≡ ok (tt, w₁)
    → w.accounts info.key ≡ some (adapter a)
    → a.status ≡ 0
    → (invoke : Invoke) (to_vec : DepositArgs → Result (List ℕ)) (caller : AccountInfo)
      (remaining : List AccountInfo) (args : DepositArgs)
    → caller.is_signer ≡ true
    → caller.is_writable ≡ true
    → Deposit.process invoke to_vec c (caller ∷ info ∷ remaining) args w₁
      ≡ err (dispatcher inactive)
unfolding Deposit.process Deposit.deposit from_u8 is_active
toggled-deposit_inactive c authority info rest w w₁ a h found active invoke to_vec caller remaining
      args signed writable =
    let (_, _, _, b, held, _, address, _, result) =
      (toggle-IsToggled c authority info rest w w₁).0 h in
    let now : w₁.accounts info.key ≡ some (adapter (record b { status = 1 - b.status })) =
      ap (λ (v : World). v.accounts info.key) result ∙ rw (==-refl info.key) refl in
    let same : b ≡ a = cc (found, held) in ground arith
