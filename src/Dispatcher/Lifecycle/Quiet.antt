-- ===== src/Dispatcher/Lifecycle/Quiet.antt =====
-- The routing instructions leave the dispatcher's accounts alone, if invoked programs do.
use solana_yield_adapter_sta.Prelude.{ℕ, ◌≡◌, ◌∙◌, ap, arith, List, [], ◌∷◌}
use solana_yield_adapter_sta.Interface.{DepositArgs, WithdrawArgs}
use solana_yield_adapter_sta.Solana.Accounts.{AccountInfo}
use solana_yield_adapter_sta.Solana.Anchor.{Chain}
use solana_yield_adapter_sta.Solana.Result.{Result, ok}
use solana_yield_adapter_sta.Solana.World.{World, Invoke}
use solana_yield_adapter_sta.Dispatcher.Deposit
use solana_yield_adapter_sta.Dispatcher.Withdraw
use solana_yield_adapter_sta.Dispatcher.CurrentValue
use solana_yield_adapter_sta.Dispatcher.Routing.Deposits.{deposit_process-IsRouted}
use solana_yield_adapter_sta.Dispatcher.Routing.Withdrawals.{withdraw_process-IsRouted}
use solana_yield_adapter_sta.Dispatcher.Routing.Values.{current_value_process-IsAnswered}
use solana_yield_adapter_sta.Dispatcher.Lifecycle.Steps.{KeepsAccounts}

module _ (c : Chain) (invoke : Invoke) (keeps : KeepsAccounts invoke) where
  pub deposit-accounts :
      (to_vec : DepositArgs → Result (List ℕ)) (accounts : List AccountInfo) (args : DepositArgs)
      (w w' : World)
      → Deposit.process invoke to_vec c accounts args w ≡ ok (tt, w')
      → w'.accounts ≡ w.accounts
  unfolding Deposit.process
  deposit-accounts to_vec [] args w w' h = cc
  deposit-accounts to_vec (x ∷ []) args w w' h = ground arith
  deposit-accounts to_vec (caller ∷ info ∷ remaining) args w w' h =
      let (_, _, (_, _, _, w₁, _, called, same)) =
        (deposit_process-IsRouted invoke to_vec c caller info remaining args w w').0 h in
      ap (λ (v : World). v.accounts) same ∙ keeps _ _ w w₁ called

  pub withdraw-accounts :
      (to_vec : WithdrawArgs → Result (List ℕ)) (accounts : List AccountInfo) (args : WithdrawArgs)
      (w w' : World)
      → Withdraw.process invoke to_vec c accounts args w ≡ ok (tt, w')
      → w'.accounts ≡ w.accounts
  unfolding Withdraw.process
  withdraw-accounts to_vec [] args w w' h = cc
  withdraw-accounts to_vec (x ∷ []) args w w' h = ground arith
  withdraw-accounts to_vec (caller ∷ info ∷ remaining) args w w' h =
      let (_, _, (_, _, _, w₁, _, called, same)) =
        (withdraw_process-IsRouted invoke to_vec c caller info remaining args w w').0 h in
      ap (λ (v : World). v.accounts) same ∙ keeps _ _ w w₁ called

  pub current_value-accounts :
      (accounts : List AccountInfo) (w w' : World)
      → CurrentValue.process invoke c accounts w ≡ ok (tt, w')
      → w'.accounts ≡ w.accounts
  unfolding CurrentValue.process
  current_value-accounts [] w w' h = cc
  current_value-accounts (x ∷ []) w w' h = ground arith
  current_value-accounts (caller ∷ info ∷ remaining) w w' h =
      let (_, _, (_, w₁, _, _, called, _, _, same)) =
        (current_value_process-IsAnswered invoke c caller info remaining w w').0 h in
      ap (λ (v : World). v.accounts) same ∙ keeps _ _ w w₁ called
