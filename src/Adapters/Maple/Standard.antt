-- ===== src/Adapters/Maple/Standard.antt =====
-- The Maple adapter as an adapter of the standard (programs/maple-adapter/src/lib.rs).
use solana_yield_adapter_sta.Prelude.{ℕ, ⊤, ◌≡◌, List, [], ◌∷◌, true, arith}
use solana_yield_adapter_sta.Solana.Accounts.{AccountInfo}
use solana_yield_adapter_sta.Solana.Result.{Result}
use solana_yield_adapter_sta.Solana.World.{World, Action, Invoke}
use solana_yield_adapter_sta.Adapters.Answer.{respond}
use solana_yield_adapter_sta.Adapters.Standard.{Standard, Decision, transfer, as_signer}
use solana_yield_adapter_sta.Adapters.Maple.{program_id, id}
use solana_yield_adapter_sta.Adapters.Maple.Deposit
use solana_yield_adapter_sta.Adapters.Maple.Withdraw
use solana_yield_adapter_sta.Adapters.Maple.CurrentValue
use solana_yield_adapter_sta.Adapters.Maple.Deposits
use solana_yield_adapter_sta.Adapters.Maple.Deposits.{deposit_request, maple_adapter_deposit_cases}
use solana_yield_adapter_sta.Adapters.Maple.Withdrawals
use solana_yield_adapter_sta.Adapters.Maple.Withdrawals.{
  withdraw_request, maple_adapter_withdraw_cases,
}
use solana_yield_adapter_sta.Adapters.Maple.Values
use solana_yield_adapter_sta.Adapters.Maple.Values.{maple_current_value_outcome, balance}

abbrev pub deposit : Invoke → List AccountInfo → ℕ → List ℕ → Action ⊤
deposit invoke accounts amount extra_data =
    Deposit.process invoke accounts (record { amount = amount; extra_data = extra_data })

abbrev pub withdraw : Invoke → List AccountInfo → ℕ → List ℕ → Action ⊤
withdraw invoke accounts amount extra_data =
    Withdraw.process invoke accounts (record { amount = amount; extra_data = extra_data })

abbrev deposit_decision : Decision
deposit_decision = deposit_request

abbrev withdraw_decision : Decision
withdraw_decision = withdraw_request

pub deposit_lem :
    (invoke : Invoke) (accounts : List AccountInfo) (amount : ℕ) (extra_data : List ℕ) (w : World)
    → deposit invoke accounts amount extra_data w
      ≡ transfer invoke program_id Deposits.reported deposit_decision accounts amount extra_data w
unfolding Deposit.process
deposit_lem invoke [] amount extra_data w = ground arith
deposit_lem invoke (caller ∷ remaining) amount extra_data w = ground (
  arith,
  maple_adapter_deposit_cases invoke (record { authority = caller }) remaining
      (record { amount = amount; extra_data = extra_data }) w,
)

pub withdraw_lem :
    (invoke : Invoke) (accounts : List AccountInfo) (amount : ℕ) (extra_data : List ℕ) (w : World)
    → withdraw invoke accounts amount extra_data w
      ≡ transfer invoke program_id Withdrawals.reported withdraw_decision accounts amount extra_data
          w
unfolding Withdraw.process
withdraw_lem invoke [] amount extra_data w = ground arith
withdraw_lem invoke (caller ∷ remaining) amount extra_data w = ground (
  arith,
  maple_adapter_withdraw_cases invoke (record { authority = caller }) remaining
      (record { amount = amount; extra_data = extra_data }) w,
)

pub current_value_lem :
    (token_amount : AccountInfo → Result ℕ) (caller : AccountInfo) (remaining : List AccountInfo)
    (w : World)
    → CurrentValue.process token_amount (caller ∷ remaining) w
      ≡ as_signer true
          (caller ∷ remaining)
          (λ from rest. respond id (Values.reported from.key) (balance token_amount rest))
          w
unfolding CurrentValue.process
current_value_lem token_amount caller remaining w =
    ground
      (arith, maple_current_value_outcome token_amount (record { authority = caller }) remaining w)

-- The Maple adapter on every caller and all remaining accounts: all three instructions refuse a
-- caller that has not signed with AccountNotSigner and one that is not writable with
-- ConstraintMut. The deposit then: empty extra data is InvalidArgs; fewer than 18 remaining
-- accounts are InvalidAccount; unless the fourth of them is the caller and a signer, the call is
-- Unauthorized; a selector other than 0 is UnknownFunction; and with selector 0 the router is
-- invoked with its discriminator and the bytes behind the selector alone, the amount standing
-- only in the event. The withdrawal then: empty extra data is InvalidArgs; fewer than 18
-- remaining accounts are InvalidAccount; unless the fourth of them is the caller and a signer,
-- the call is Unauthorized; a selector other than 0 is UnknownFunction; and with selector 0 the
-- router is invoked with its discriminator and the bytes behind the selector alone, the amount
-- standing only in the event. The value query then: InvalidAccount without an account, the error
-- of loading the first account as a token account, and otherwise its amount becomes the return
-- data and the event's value.
pub maple_is_standard :
    (token_amount : AccountInfo → Result ℕ) (invoke : Invoke) (caller : AccountInfo)
    (remaining : List AccountInfo) (amount : ℕ) (extra_data : List ℕ) (w : World)
    → (Deposit.process invoke
          (caller ∷ remaining)
          (record { amount = amount; extra_data = extra_data })
          w
        ≡ transfer invoke program_id Deposits.reported deposit_decision
            (caller ∷ remaining)
            amount
            extra_data
            w)
      × (Withdraw.process invoke
            (caller ∷ remaining)
            (record { amount = amount; extra_data = extra_data })
            w
          ≡ transfer invoke program_id Withdrawals.reported withdraw_decision
              (caller ∷ remaining)
              amount
              extra_data
              w)
      × (CurrentValue.process token_amount (caller ∷ remaining) w
          ≡ as_signer true
              (caller ∷ remaining)
              (λ from rest. respond id (Values.reported from.key) (balance token_amount rest))
              w)
maple_is_standard token_amount invoke caller remaining amount extra_data w = (
  deposit_lem invoke (caller ∷ remaining) amount extra_data w,
  withdraw_lem invoke (caller ∷ remaining) amount extra_data w,
  current_value_lem token_amount caller remaining w,
)

abbrev pub standard : (AccountInfo → Result ℕ) → Standard
standard token_amount = record {
  protocol = program_id;
  id = id;
  deposit = deposit;
  withdraw = withdraw;
  current_value = CurrentValue.process token_amount;
  deposited = Deposits.reported;
  withdrawn = Withdrawals.reported;
  valued = Values.reported;
  deposit_decision = deposit_decision;
  withdraw_decision = withdraw_decision;
  value_mut = true;
  value_of = balance token_amount;
  deposit_lem = deposit_lem;
  withdraw_lem = withdraw_lem;
  current_value_lem = λ caller remaining w h. current_value_lem token_amount caller remaining w;
}
