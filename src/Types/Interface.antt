-- ===== src/Types/Interface.antt =====
-- The error codes of crates/yield-adapter-interface/src/lib.rs.
pub data YieldAdapterInterfaceError : Type 0 where
  missing_return_data invalid_return_data account_data_too_short : YieldAdapterInterfaceError
  invalid_account_data offset_overflow : YieldAdapterInterfaceError
