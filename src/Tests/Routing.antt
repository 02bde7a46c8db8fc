-- ===== src/Tests/Routing.antt =====
-- Routed calls.
use solana_yield_adapter_sta.Prelude.{◌≡◌, ℕ, List, refl, arith, [], ◌∷◌, some}
use solana_yield_adapter_sta.Prelude.Bytes.{le_bytes}
use solana_yield_adapter_sta.Interface.{from_u8, is_active}
use solana_yield_adapter_sta.Solana.Result.{ok}
use solana_yield_adapter_sta.Solana.World.{World}
use solana_yield_adapter_sta.Dispatcher.Deposit
use solana_yield_adapter_sta.Dispatcher.Deposit.{Deposit}
use solana_yield_adapter_sta.Dispatcher.Withdraw
use solana_yield_adapter_sta.Dispatcher.Withdraw.{Withdraw}
use solana_yield_adapter_sta.Dispatcher.Routing.Deposits
use solana_yield_adapter_sta.Dispatcher.Routing.Withdrawals
use solana_yield_adapter_sta.Dispatcher.Routing.Wire.{Carries, deposit-Carries, withdraw-Carries}
use solana_yield_adapter_sta.Tests.Fixtures.{
  accepting, deposit_to_vec, withdraw_to_vec, deposit_to_vec-DepositLayout,
  withdraw_to_vec-WithdrawLayout, caller, vault, active_entry, deposit_args, withdraw_args,
  registered_world,
}

-- The registered world after an accepted call.
abbrev called_world : World
called_world = record registered_world { return_data = some (30, le_bytes 8 77) }

abbrev deposit_ctx : Deposit
deposit_ctx = record { signer = caller; adapter = active_entry }

abbrev withdraw_ctx : Withdraw
withdraw_ctx = record { signer = caller; adapter = active_entry }

deposit_run :
    Deposit.deposit accepting deposit_to_vec deposit_ctx (vault ∷ []) deposit_args registered_world
    ≡ ok (tt, Deposits.logged deposit_ctx deposit_args called_world)
unfolding Deposit.deposit from_u8 is_active
deposit_run = refl

withdraw_run :
    Withdraw.withdraw accepting withdraw_to_vec withdraw_ctx
      (vault ∷ [])
      withdraw_args
      registered_world
    ≡ ok (tt, Withdrawals.logged withdraw_ctx withdraw_args called_world)
unfolding Withdraw.withdraw from_u8 is_active
withdraw_run = refl

deposit-Carries_example :
    (bytes : List ℕ) × (w₁ : World) × (accepting
        (Deposits.sent deposit_ctx (vault ∷ []) bytes)
        (caller ∷ vault ∷ [])
        registered_world
      ≡ ok (tt, w₁))
    × Carries 1000 (3 ∷ 8 ∷ []) bytes
deposit-Carries_example =
    deposit-Carries accepting deposit_to_vec deposit_ctx (vault ∷ []) deposit_args registered_world
      (Deposits.logged deposit_ctx deposit_args called_world) deposit_to_vec-DepositLayout
      (ground arith) deposit_run

withdraw-Carries_example :
    (bytes : List ℕ) × (w₁ : World) × (accepting
        (Withdrawals.sent withdraw_ctx (vault ∷ []) bytes)
        (caller ∷ vault ∷ [])
        registered_world
      ≡ ok (tt, w₁))
    × Carries 600 (2 ∷ 8 ∷ []) bytes
withdraw-Carries_example =
    withdraw-Carries accepting withdraw_to_vec withdraw_ctx (vault ∷ []) withdraw_args
      registered_world (Withdrawals.logged withdraw_ctx withdraw_args called_world)
      withdraw_to_vec-WithdrawLayout (ground arith) withdraw_run
