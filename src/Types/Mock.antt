-- ===== src/Types/Mock.antt =====
-- The events of programs/mock-adapter.
use solana_yield_adapter_sta.Prelude.{ℕ, List}
use solana_yield_adapter_sta.Solana.Accounts.{Pubkey}

pub record MockDepositCalled : Type 0 where
  pub authority : Pubkey
  pub amount : ℕ
  pub extra_data : List ℕ

pub record MockWithdrawCalled : Type 0 where
  pub authority : Pubkey
  pub amount : ℕ
  pub extra_data : List ℕ

pub record MockCurrentValueCalled : Type 0 where
  pub authority : Pubkey
  pub value : ℕ

pub data MockEvent : Type 0 where
  deposit_called : MockDepositCalled → MockEvent
  withdraw_called : MockWithdrawCalled → MockEvent
  current_value_called : MockCurrentValueCalled → MockEvent
