-- ===== src/Types/Marginfi.antt =====
-- The error codes and events of programs/marginfi-adapter.
use solana_yield_adapter_sta.Prelude.{ℕ}
use solana_yield_adapter_sta.Solana.Accounts.{Pubkey}

pub data AdapterError : Type 0 where
  unknown_function invalid_account invalid_args : AdapterError

pub record AdapterDepositEvent : Type 0 where
  pub authority : Pubkey
  pub program_id : Pubkey
  pub amount : ℕ

pub record AdapterWithdrawEvent : Type 0 where
  pub authority : Pubkey
  pub program_id : Pubkey
  pub amount : ℕ

pub record AdapterCurrentValueEvent : Type 0 where
  pub authority : Pubkey
  pub program_id : Pubkey
  pub current_value : ℕ

pub data MarginfiEvent : Type 0 where
  deposited : AdapterDepositEvent → MarginfiEvent
  withdrawn : AdapterWithdrawEvent → MarginfiEvent
  valued : AdapterCurrentValueEvent → MarginfiEvent
