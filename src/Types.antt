-- ===== src/Types.antt =====
-- What a program can fail with and what it can log: one constructor for each program's own type.
pub mod Interface
pub mod Dispatcher
pub mod Kamino
pub mod Marginfi
pub mod Jupiter
pub mod Maple
pub mod Drift
pub mod Mock
use solana_yield_adapter_sta.Prelude.{ℕ}

-- What Anchor and the runtime refuse by themselves, before or beside the programs' own checks.
pub data AnchorError : Type 0 where
  account_not_enough_keys account_not_signer account_not_initialized : AnchorError
  account_owned_by_wrong_program : AnchorError
  account_discriminator_not_found account_discriminator_mismatch : AnchorError
  account_borrow_failed account_already_in_use privilege_escalation : AnchorError
  constraint_mut constraint_seeds invalid_program_id : AnchorError
  instruction_fallback_not_found instruction_did_not_deserialize : AnchorError

-- `panic` is an index or a slice out of range; `foreign` is what an invoked program, or a
-- library call that is not modelled, fails with.
pub data Error : Type 0 where
  interface : Interface.YieldAdapterInterfaceError → Error
  dispatcher : Dispatcher.DispatcherError → Error
  kamino : Kamino.AdapterError → Error
  marginfi : Marginfi.AdapterError → Error
  jupiter : Jupiter.AdapterError → Error
  maple : Maple.AdapterError → Error
  drift : Drift.AdapterError → Error
  anchor : AnchorError → Error
  foreign : ℕ → Error
  panic : Error

pub data Event : Type 0 where
  deposit : Dispatcher.DepositEvent → Event
  withdraw : Dispatcher.WithdrawEvent → Event
  toggle : Dispatcher.ToggleEvent → Event
  kamino : Kamino.KaminoEvent → Event
  marginfi : Marginfi.MarginfiEvent → Event
  jupiter : Jupiter.JupiterEvent → Event
  maple : Maple.MapleEvent → Event
  drift : Drift.DriftEvent → Event
  mock : Mock.MockEvent → Event
