-- ===== src/Adapters/Mock.antt =====
-- programs/mock-adapter/src/lib.rs, the adapter that the dispatcher's tests route to.
use solana_yield_adapter_sta.Prelude.{ℕ, ⊤, List, [], ◌∷◌}
use solana_yield_adapter_sta.Types.{anchor, account_not_enough_keys, Event}
use solana_yield_adapter_sta.Types.Mock.{deposit_called, withdraw_called, current_value_called}
use solana_yield_adapter_sta.Interface.{set_return_u64}
use solana_yield_adapter_sta.Solana.Accounts.{Pubkey, AccountInfo}
use solana_yield_adapter_sta.Solana.World.{Action, ◌>>=◌, ◌>>◌, pure, fail, emit}
use solana_yield_adapter_sta.Solana.Anchor.{signer}

abbrev pub mock_current_value : ℕ
mock_current_value = 123_456_789

-- 3ChHEmV3NhvmtzLXPDY62aJizN4tiBGapzpmUKwxj6cV
abbrev pub id : Pubkey
id = 0x7edcd13af9b8fffed754cfafd18771bf08b76160f6a63cd936d9ad89b44eb620

pub record AdapterDepositArgs : Type 0 where
  pub amount : ℕ
  pub extra_data : List ℕ

pub record AdapterWithdrawArgs : Type 0 where
  pub amount : ℕ
  pub extra_data : List ℕ

-- The three account structs hold one signer, `authority`.
unfoldable pub try_accounts : List AccountInfo → Action AccountInfo
try_accounts (authority ∷ _) = do signer authority; pure authority
try_accounts [] = fail (anchor account_not_enough_keys)

unfoldable pub adapter_deposit : AccountInfo → AdapterDepositArgs → Action ⊤
adapter_deposit authority args = emit (
    Event.mock (
      deposit_called
        (record { authority = authority.key; amount = args.amount; extra_data = args.extra_data })))

unfoldable pub adapter_withdraw : AccountInfo → AdapterWithdrawArgs → Action ⊤
adapter_withdraw authority args = emit (
    Event.mock (
      withdraw_called
        (record { authority = authority.key; amount = args.amount; extra_data = args.extra_data })))

unfoldable pub adapter_current_value : AccountInfo → Action ⊤
adapter_current_value authority = do
  emit (
      Event.mock
        (current_value_called (record { authority = authority.key; value = mock_current_value })))
  set_return_u64 id mock_current_value

-- The instructions as the program exposes them.
unfoldable pub deposit_process : List AccountInfo → AdapterDepositArgs → Action ⊤
unfolding try_accounts adapter_deposit
deposit_process accounts args = do adapter_deposit (← try_accounts accounts) args

unfoldable pub withdraw_process : List AccountInfo → AdapterWithdrawArgs → Action ⊤
unfolding try_accounts adapter_withdraw
withdraw_process accounts args = do adapter_withdraw (← try_accounts accounts) args

unfoldable pub current_value_process : List AccountInfo → Action ⊤
unfolding try_accounts adapter_current_value
current_value_process accounts = do adapter_current_value (← try_accounts accounts)
