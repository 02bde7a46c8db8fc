-- ===== src/Dispatcher/Outcomes/Toggles.antt =====
-- Every outcome of `toggle_adapter` (programs/dispatcher/src/instructions/toggle_adapter.rs).
use solana_yield_adapter_sta.Prelude.{
  ⊤, ◌≡◌, ◌-◌, ◌==◌, inl, inr, arith, leb, List, [], ◌∷◌, Option-cases,
}
use solana_yield_adapter_sta.Types.{
  anchor, dispatcher, account_not_enough_keys, constraint_mut, constraint_seeds, toggle,
}
use solana_yield_adapter_sta.Types.Dispatcher.{
  Adapter, adapter, registry, unauthorized, invalid_status, deprecated,
}
use solana_yield_adapter_sta.Interface.{from_u8, as_u8}
use solana_yield_adapter_sta.Solana.Accounts.{AccountInfo}
use solana_yield_adapter_sta.Solana.Anchor.{Chain}
use solana_yield_adapter_sta.Solana.Result.{Result, ok, err}
use solana_yield_adapter_sta.Solana.World.{World, update}
use solana_yield_adapter_sta.Dispatcher.ToggleAdapter
use solana_yield_adapter_sta.Dispatcher.Outcomes.Checks.{
  guarded, with_adapter, signs, at_its_address, load_error-eq-unheld,
}

-- The world after the toggle of the entry `a`.
abbrev pub toggled : AccountInfo → AccountInfo → Adapter → World → World
toggled authority info a w = record w {
  accounts = update w.accounts info.key (adapter (record a { status = 1 - a.status }));
  log =
      toggle (record {
        authority = authority.key;
        adapter = info.key;
        program_id = a.program_id;
        status = 1 - a.status;
      })
      ∷ w.log;
}

abbrev pub toggle_table : Chain → List AccountInfo → World → Result (⊤ × World)
toggle_table c (authority ∷ info ∷ rest) w = guarded (signs authority) (
    with_adapter w info (λ a.
      guarded
        ((authority.is_writable, anchor constraint_mut)
          ∷ (at_its_address c a info.key, anchor constraint_seeds)
          ∷ (info.is_writable, anchor constraint_mut)
          ∷ (a.authority == authority.key, dispatcher unauthorized)
          ∷ (leb a.status 2, dispatcher invalid_status)
          ∷ (leb a.status 1, dispatcher deprecated)
          ∷ [])
        (ok (tt, toggled authority info a w))))
toggle_table c (authority ∷ []) w = guarded (signs authority) (err (anchor account_not_enough_keys))
toggle_table c [] w = err (anchor account_not_enough_keys)

-- The whole toggle, on every input. Its checks run in this order, and the first that fails gives
-- the error: there is a first account, it signs, there is a second account, it holds an adapter (if
-- not, the error is AccountDiscriminatorMismatch for a registry, and otherwise
-- AccountNotInitialized where the system program owns the account and it has no lamports,
-- AccountOwnedByWrongProgram where another program does, AccountBorrowFailed for data that is
-- borrowed, AccountDiscriminatorNotFound below eight bytes, or AccountDiscriminatorMismatch), the
-- first is writable, the second stands at the adapter's own address and is writable, the first is
-- the adapter's authority, the status byte is a status, the adapter is not deprecated. Past them,
-- active and paused are exchanged and the new status is logged.
pub toggle_outcome :
    (c : Chain) (accounts : List AccountInfo) (w : World)
    → ToggleAdapter.process c accounts w ≡ toggle_table c accounts w
unfolding ToggleAdapter.process from_u8 as_u8
toggle_outcome c [] w = ground arith
toggle_outcome c (x ∷ []) w = ground arith
toggle_outcome c (authority ∷ info ∷ rest) w = elim (Option-cases (w.accounts info.key)) [
  | inl e ↦ ground (arith, load_error-eq-unheld {A = ⊤ × World} info)
  | inr (registry r, e) ↦ ground arith
  | inr (adapter a, e) ↦ ground arith
]
