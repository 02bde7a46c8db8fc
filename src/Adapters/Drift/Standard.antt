-- ===== src/Adapters/Drift/Standard.antt =====
-- The Drift adapter as an adapter of the standard (programs/drift-adapter/src/lib.rs).
use solana_yield_adapter_sta.Prelude.{ℕ, ⊤, ◌≡◌, List, [], ◌∷◌, true, arith}
use solana_yield_adapter_sta.Solana.Accounts.{AccountInfo}
use solana_yield_adapter_sta.Solana.World.{World, Action, Invoke}
use solana_yield_adapter_sta.Adapters.Answer.{respond, observed, HasData}
use solana_yield_adapter_sta.Adapters.Standard.{Standard, Decision, transfer, as_signer}
use solana_yield_adapter_sta.Adapters.Drift.{program_id, id}
use solana_yield_adapter_sta.Adapters.Drift.Deposit
use solana_yield_adapter_sta.Adapters.Drift.Withdraw
use solana_yield_adapter_sta.Adapters.Drift.CurrentValue
use solana_yield_adapter_sta.Adapters.Drift.Deposits
use solana_yield_adapter_sta.Adapters.Drift.Deposits.{deposit_request, drift_adapter_deposit_cases}
use solana_yield_adapter_sta.Adapters.Drift.Withdrawals
use solana_yield_adapter_sta.Adapters.Drift.Withdrawals.{
  withdraw_request, drift_adapter_withdraw_cases,
}
use solana_yield_adapter_sta.Adapters.Drift.Values
use solana_yield_adapter_sta.Adapters.Drift.Values.{drift_current_value_outcome}

abbrev deposit : Invoke → List AccountInfo → ℕ → List ℕ → Action ⊤
deposit invoke accounts amount extra_data =
    Deposit.process invoke accounts (record { amount = amount; extra_data = extra_data })

abbrev withdraw : Invoke → List AccountInfo → ℕ → List ℕ → Action ⊤
withdraw invoke accounts amount extra_data =
    Withdraw.process invoke accounts (record { amount = amount; extra_data = extra_data })

abbrev deposit_decision : Decision
deposit_decision = λ caller remaining extra_data amount. deposit_request caller extra_data amount

abbrev withdraw_decision : Decision
withdraw_decision = λ caller remaining extra_data amount. withdraw_request caller extra_data amount

pub deposit_lem :
    (invoke : Invoke) (accounts : List AccountInfo) (amount : ℕ) (extra_data : List ℕ) (w : World)
    → deposit invoke accounts amount extra_data w
      ≡ transfer invoke program_id Deposits.reported deposit_decision accounts amount extra_data w
unfolding Deposit.process
deposit_lem invoke [] amount extra_data w = ground arith
deposit_lem invoke (caller ∷ remaining) amount extra_data w = ground (
  arith,
  drift_adapter_deposit_cases invoke (record { authority = caller }) remaining
      (record { amount = amount; extra_data = extra_data }) w,
)

pub withdraw_lem :
    (invoke : Invoke) (accounts : List AccountInfo) (amount : ℕ) (extra_data : List ℕ) (w : World)
    → withdraw invoke accounts amount extra_data w
      ≡ transfer invoke program_id Withdrawals.reported withdraw_decision accounts amount extra_data
          w
unfolding Withdraw.process
withdraw_lem invoke [] amount extra_data w = ground arith
withdraw_lem invoke (caller ∷ remaining) amount extra_data w = ground (
  arith,
  drift_adapter_withdraw_cases invoke (record { authority = caller }) remaining
      (record { amount = amount; extra_data = extra_data }) w,
)

pub current_value_lem :
    (caller : AccountInfo) (remaining : List AccountInfo) (w : World)
    → HasData remaining
    → CurrentValue.process (caller ∷ remaining) w
      ≡ as_signer true
          (caller ∷ remaining)
          (λ from rest. respond id (Values.reported from.key) (observed 104 8 rest))
          w
unfolding CurrentValue.process
current_value_lem caller remaining w h =
    ground (arith, drift_current_value_outcome (record { authority = caller }) w remaining h)

-- The Drift adapter on every caller and all remaining accounts, where the first remaining
-- account's data is a byte sequence with a length below 2^64: all three instructions refuse a
-- caller that has not signed with AccountNotSigner and one that is not writable with
-- ConstraintMut. The deposit then: a default authority is InvalidAccount, empty extra data is
-- InvalidArgs, a selector above 2 is UnknownFunction. Selector 0 panics unless two bytes follow
-- it; with them, the protocol gets the market index, the amount in eight bytes and the rest.
-- Selector 1 sends what follows it and then the amount, selector 2 what follows it alone, with an
-- event of amount 0. The withdrawal then: a default authority is InvalidAccount, empty extra data
-- is InvalidArgs, a selector above 2 is UnknownFunction. Every selector up to 2 panics unless two
-- bytes, the market index, follow it. With them, selector 0 sends the index, the amount in eight
-- bytes and the rest, selector 1 the index and the amount, selector 2 the index alone, with an
-- event of amount 0. The value query then: a panic without an account, AccountBorrowFailed for
-- data that is borrowed, AccountDataTooShort below 112 bytes, and otherwise the number that the
-- eight bytes at offset 104 spell becomes the return data and the event's value.
pub drift_is_standard :
    (invoke : Invoke) (caller : AccountInfo) (remaining : List AccountInfo) (amount : ℕ)
    (extra_data : List ℕ) (w : World)
    → HasData remaining
    → (Deposit.process invoke
          (caller ∷ remaining)
          (record { amount = amount; extra_data = extra_data })
          w
        ≡ transfer invoke program_id Deposits.reported deposit_decision
            (caller ∷ remaining)
            amount
            extra_data
            w)
      × (Withdraw.process invoke
            (caller ∷ remaining)
            (record { amount = amount; extra_data = extra_data })
            w
          ≡ transfer invoke program_id Withdrawals.reported withdraw_decision
              (caller ∷ remaining)
              amount
              extra_data
              w)
      × (CurrentValue.process (caller ∷ remaining) w
          ≡ as_signer true
              (caller ∷ remaining)
              (λ from rest. respond id (Values.reported from.key) (observed 104 8 rest))
              w)
drift_is_standard invoke caller remaining amount extra_data w h = (
  deposit_lem invoke (caller ∷ remaining) amount extra_data w,
  withdraw_lem invoke (caller ∷ remaining) amount extra_data w,
  current_value_lem caller remaining w h,
)

abbrev pub standard : Standard
standard = record {
  protocol = program_id;
  id = id;
  deposit = deposit;
  withdraw = withdraw;
  current_value = CurrentValue.process;
  deposited = Deposits.reported;
  withdrawn = Withdrawals.reported;
  valued = Values.reported;
  deposit_decision = deposit_decision;
  withdraw_decision = withdraw_decision;
  value_mut = true;
  value_of = observed 104 8;
  deposit_lem = deposit_lem;
  withdraw_lem = withdraw_lem;
  current_value_lem = current_value_lem;
}
