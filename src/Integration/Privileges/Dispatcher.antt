-- ===== src/Integration/Privileges/Dispatcher.antt =====
-- The calls that the dispatcher makes.
use solana_yield_adapter_sta.Prelude.{
  leb, length, [], ℕ, ◌≡◌, ◌∙◌, true, ap, refl, sym, inl, inr, Bool-cases, List, ◌∷◌, ◌++◌, some,
}
use solana_yield_adapter_sta.Types.{dispatcher}
use solana_yield_adapter_sta.Types.Dispatcher.{overflow, Adapter, adapter}
use solana_yield_adapter_sta.Interface.{
  DepositArgs, WithdrawArgs, adapter_deposit_discriminator, adapter_withdraw_discriminator,
  adapter_current_value_discriminator,
}
use solana_yield_adapter_sta.Solana.Accounts.{AccountInfo}
use solana_yield_adapter_sta.Solana.Anchor.{Chain}
use solana_yield_adapter_sta.Solana.Result.{Result, Result-cases}
use solana_yield_adapter_sta.Solana.World.{World, Invoke}
use solana_yield_adapter_sta.Dispatcher.Deposit
use solana_yield_adapter_sta.Dispatcher.Withdraw
use solana_yield_adapter_sta.Dispatcher.CurrentValue
use solana_yield_adapter_sta.Dispatcher.Outcomes.Checks.{
  Check, routable, guarded, logging, with_adapter,
}
use solana_yield_adapter_sta.Dispatcher.Outcomes.Deposits
use solana_yield_adapter_sta.Dispatcher.Outcomes.Withdrawals
use solana_yield_adapter_sta.Dispatcher.Outcomes.Deposits.{deposit_outcome, deposit_table}
use solana_yield_adapter_sta.Dispatcher.Outcomes.Withdrawals.{withdraw_outcome, withdraw_table}
use solana_yield_adapter_sta.Dispatcher.Outcomes.Values.{handed, value_outcome, value_table}
use solana_yield_adapter_sta.Integration.Privileges.{supervised, supervised-caller}

module _ (invoke : Invoke) (c : Chain) (caller info : AccountInfo) (remaining : List AccountInfo)
    (w : World) (a : Adapter) (held : w.accounts info.key ≡ some (adapter a)) where
  abbrev watched : Invoke
  watched = supervised (caller ∷ info ∷ remaining) a.program_id invoke

  -- What a deposit and a withdrawal check before the call.
  abbrev checks : List ℕ → List Check
  checks extra_data =
      routable c caller info a ++ ((leb (length extra_data) 64, dispatcher overflow) ∷ [])

  deposit-delivered :
      (to_vec : DepositArgs → Result (List ℕ)) (args : DepositArgs)
      → caller.is_signer ≡ true
      → Deposits.delivered watched to_vec (record { signer = caller; adapter = a }) remaining args w
        ≡ Deposits.delivered invoke to_vec
            (record { signer = caller; adapter = a })
            remaining
            args
            w
  deposit-delivered to_vec args signed = elim (Result-cases (to_vec args)) [
    | inr (x, e) ↦ rw (e, Deposits.delivered) refl
    | inl (bytes, e) ↦
        rw (e, Deposits.delivered)
          (ap (logging _) (
            supervised-caller caller info remaining a.program_id invoke
              (adapter_deposit_discriminator ++ bytes) (caller ∷ remaining) w signed))
  ]

  deposit_table-supervised :
      (to_vec : DepositArgs → Result (List ℕ)) (args : DepositArgs)
      → deposit_table watched to_vec c (caller ∷ info ∷ remaining) args w
        ≡ deposit_table invoke to_vec c (caller ∷ info ∷ remaining) args w
  deposit_table-supervised to_vec args = elim (Bool-cases caller.is_signer) [
    | inr f ↦ rw f refl
    | inl signed ↦
        rw (signed, held, with_adapter)
          (ap (guarded (checks args.extra_data)) (deposit-delivered to_vec args signed))
  ]

  withdraw-delivered :
      (to_vec : WithdrawArgs → Result (List ℕ)) (args : WithdrawArgs)
      → caller.is_signer ≡ true
      → Withdrawals.delivered watched to_vec
          (record { signer = caller; adapter = a })
          remaining
          args
          w
        ≡ Withdrawals.delivered invoke to_vec
            (record { signer = caller; adapter = a })
            remaining
            args
            w
  withdraw-delivered to_vec args signed = elim (Result-cases (to_vec args)) [
    | inr (x, e) ↦ rw (e, Withdrawals.delivered) refl
    | inl (bytes, e) ↦
        rw (e, Withdrawals.delivered)
          (ap (logging _) (
            supervised-caller caller info remaining a.program_id invoke
              (adapter_withdraw_discriminator ++ bytes) (caller ∷ remaining) w signed))
  ]

  withdraw_table-supervised :
      (to_vec : WithdrawArgs → Result (List ℕ)) (args : WithdrawArgs)
      → withdraw_table watched to_vec c (caller ∷ info ∷ remaining) args w
        ≡ withdraw_table invoke to_vec c (caller ∷ info ∷ remaining) args w
  withdraw_table-supervised to_vec args = elim (Bool-cases caller.is_signer) [
    | inr f ↦ rw f refl
    | inl signed ↦
        rw (signed, held, with_adapter)
          (ap (guarded (checks args.extra_data)) (withdraw-delivered to_vec args signed))
  ]

  value_table-supervised :
      value_table watched c (caller ∷ info ∷ remaining) w
      ≡ value_table invoke c (caller ∷ info ∷ remaining) w
  value_table-supervised = elim (Bool-cases caller.is_signer) [
    | inr f ↦ rw f refl
    | inl signed ↦
        rw (signed, held, with_adapter)
          (ap (guarded (routable c caller info a)) (
            ap handed (
              supervised-caller caller info remaining a.program_id invoke
                adapter_current_value_discriminator (caller ∷ remaining) w signed)))
  ]

  -- A deposit, a withdrawal and a value query of the dispatcher on the account of a registered
  -- adapter come to the same under a runtime that refuses every call of a program other than the
  -- registered one, and every call that names an account which the dispatcher was not given or
  -- claims a signature or a write that the dispatcher does not have: it never tries.
  pub dispatcher-supervised :
      (deposit_to_vec : DepositArgs → Result (List ℕ))
      (withdraw_to_vec : WithdrawArgs → Result (List ℕ)) (args : DepositArgs) (args' : WithdrawArgs)
      → (Deposit.process watched deposit_to_vec c (caller ∷ info ∷ remaining) args w
          ≡ Deposit.process invoke deposit_to_vec c (caller ∷ info ∷ remaining) args w)
        × (Withdraw.process watched withdraw_to_vec c (caller ∷ info ∷ remaining) args' w
            ≡ Withdraw.process invoke withdraw_to_vec c (caller ∷ info ∷ remaining) args' w)
        × (CurrentValue.process watched c (caller ∷ info ∷ remaining) w
            ≡ CurrentValue.process invoke c (caller ∷ info ∷ remaining) w)
  dispatcher-supervised deposit_to_vec withdraw_to_vec args args' = (
    deposit_outcome watched deposit_to_vec c (caller ∷ info ∷ remaining) args w
        ∙ deposit_table-supervised deposit_to_vec args
        ∙ sym (deposit_outcome invoke deposit_to_vec c (caller ∷ info ∷ remaining) args w),
    withdraw_outcome watched withdraw_to_vec c (caller ∷ info ∷ remaining) args' w
        ∙ withdraw_table-supervised withdraw_to_vec args'
        ∙ sym (withdraw_outcome invoke withdraw_to_vec c (caller ∷ info ∷ remaining) args' w),
    value_outcome watched c (caller ∷ info ∷ remaining) w
        ∙ value_table-supervised
        ∙ sym (value_outcome invoke c (caller ∷ info ∷ remaining) w),
  )
