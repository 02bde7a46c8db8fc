-- ===== src/Dispatcher/Transactions/Availability.antt =====
-- What stays possible, whatever everybody else sends.
use solana_yield_adapter_sta.Prelude.{ℕ, ◌≡◌, ◌≤◌, true, arith, length, List, ◌∷◌, some}
use solana_yield_adapter_sta.Types.Dispatcher.{Adapter, adapter}
use solana_yield_adapter_sta.Interface.{DepositArgs}
use solana_yield_adapter_sta.Solana.Accounts.{AccountInfo}
use solana_yield_adapter_sta.Solana.Anchor.{FindsByBump}
use solana_yield_adapter_sta.Solana.Result.{ok}
use solana_yield_adapter_sta.Solana.World.{World}
use solana_yield_adapter_sta.Dispatcher.Deposit
use solana_yield_adapter_sta.Dispatcher.ToggleAdapter
use solana_yield_adapter_sta.Dispatcher.Outcomes.Toggles.{toggled}
use solana_yield_adapter_sta.Dispatcher.Routing.Deposits.{sent, logged}
use solana_yield_adapter_sta.Dispatcher.Lifecycle.Steps.{Setting, KeepsAccounts}
use solana_yield_adapter_sta.Dispatcher.Lifecycle.Safety.{IsSafe}
use solana_yield_adapter_sta.Dispatcher.Lifecycle.Liveness.{
  anyone_can_deposit, authority_can_toggle,
}
use solana_yield_adapter_sta.Dispatcher.Transactions.Runs.{Call, settle, settle-IsSafe}
use solana_yield_adapter_sta.Dispatcher.Transactions.Silence.{AllSilent, silent_authority}

module _ (s : Setting) (keeps : KeepsAccounts s.invoke) (finds : FindsByBump s.chain)
    (ts : List (List Call)) (w : World) (safe : IsSafe s.chain w.accounts) (info : AccountInfo)
    (a : Adapter) (held : w.accounts info.key ≡ some (adapter a))
    (silent : AllSilent a.authority ts) where
  -- Where invoked programs keep the dispatcher's accounts and bumps are found as documented: from a
  -- safe world with an active adapter, after every run of transactions in which the adapter's
  -- authority signs for no instruction as its first account, a deposit by any writable signer, with
  -- at most 64 bytes of extra data and arguments that serialise, succeeds if the adapter's program
  -- accepts the instruction, and the authority, with its own account writable and signed and the
  -- adapter's account writable, can still pause the adapter.
  pub stays_available :
      (caller authority : AccountInfo) (remaining rest : List AccountInfo) (args : DepositArgs)
      (bytes : List ℕ) (w₁ : World)
      → a.status ≡ 0
      → caller.is_signer ≡ true
      → caller.is_writable ≡ true
      → length args.extra_data ≤ 64
      → s.deposit_to_vec args ≡ ok bytes
      → s.invoke
          (sent (record { signer = caller; adapter = a }) remaining bytes)
          (caller ∷ remaining)
          (settle s ts w)
        ≡ ok (tt, w₁)
      → authority.key ≡ a.authority
      → authority.is_signer ≡ true
      → authority.is_writable ≡ true
      → info.is_writable ≡ true
      → (Deposit.process s.invoke s.deposit_to_vec s.chain
            (caller ∷ info ∷ remaining)
            args
            (settle s ts w)
          ≡ ok (tt, logged (record { signer = caller; adapter = a }) args w₁))
        × (ToggleAdapter.process s.chain (authority ∷ info ∷ rest) (settle s ts w)
            ≡ ok (tt, toggled authority info a (settle s ts w)))
  stays_available caller authority remaining rest args bytes w₁ active signed writable short encoded
        accepted who authority_signed authority_writable open_info =
      let safe_now : IsSafe s.chain (settle s ts w).accounts = settle-IsSafe s ts w keeps safe in
      let held_now : (settle s ts w).accounts info.key ≡ some (adapter a) =
        silent_authority s keeps ts w info.key a held silent in
      (
        anyone_can_deposit s.chain finds (settle s ts w) safe_now info a held_now s.invoke
            s.deposit_to_vec caller remaining args bytes w₁ active signed writable short encoded
            accepted,
        authority_can_toggle s.chain finds (settle s ts w) safe_now info a held_now authority rest
            who authority_signed authority_writable open_info (omega (arith, active)),
      )
