-- ===== src/Types/Dispatcher.antt =====
-- The error codes, events and account records of programs/dispatcher.
use solana_yield_adapter_sta.Prelude.{ℕ}
use solana_yield_adapter_sta.Prelude.Int.{ℤ}
use solana_yield_adapter_sta.Solana.Accounts.{Pubkey}

pub data DispatcherError : Type 0 where
  invalid_account unauthorized overflow inactive invalid_status deprecated : DispatcherError

-- `#[error_code]` numbers the variants from 6000 on, in order.
pub error_number : DispatcherError → ℕ
error_number DispatcherError.invalid_account = 6000
error_number DispatcherError.unauthorized = 6001
error_number DispatcherError.overflow = 6002
error_number DispatcherError.inactive = 6003
error_number DispatcherError.invalid_status = 6004
error_number DispatcherError.deprecated = 6005

pub record DepositEvent : Type 0 where
  pub authority : Pubkey
  pub program_id : Pubkey
  pub amount : ℕ

pub record WithdrawEvent : Type 0 where
  pub authority : Pubkey
  pub program_id : Pubkey
  pub amount : ℕ

pub record ToggleEvent : Type 0 where
  pub authority : Pubkey
  pub adapter : Pubkey
  pub program_id : Pubkey
  pub status : ℕ

pub record Registry : Type 0 where
  pub initializer : Pubkey
  pub bump : ℕ

pub record Adapter : Type 0 where
  pub authority : Pubkey
  pub program_id : Pubkey
  pub supported_mint : Pubkey
  pub status : ℕ
  pub registered_at : ℤ
  pub bump : ℕ

-- The accounts that the dispatcher owns; Anchor tells the two apart by their discriminators.
pub data DispatcherAccount : Type 0 where
  registry : Registry → DispatcherAccount
  adapter : Adapter → DispatcherAccount
