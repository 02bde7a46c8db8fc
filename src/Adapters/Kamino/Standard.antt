-- ===== src/Adapters/Kamino/Standard.antt =====
-- The Kamino adapter as an adapter of the standard (programs/kamino-adapter/src/lib.rs).
use solana_yield_adapter_sta.Prelude.{ℕ, ⊤, ◌≡◌, List, [], ◌∷◌, Option, false, arith}
use solana_yield_adapter_sta.Solana.Accounts.{AccountInfo}
use solana_yield_adapter_sta.Solana.World.{World, Action, Invoke}
use solana_yield_adapter_sta.Adapters.Answer.{respond}
use solana_yield_adapter_sta.Adapters.Standard.{Standard, Decision, transfer, as_signer}
use solana_yield_adapter_sta.Adapters.Kamino.{program_id, id}
use solana_yield_adapter_sta.Adapters.Kamino.Deposit
use solana_yield_adapter_sta.Adapters.Kamino.Withdraw
use solana_yield_adapter_sta.Adapters.Kamino.CurrentValue
use solana_yield_adapter_sta.Adapters.Kamino.Deposits
use solana_yield_adapter_sta.Adapters.Kamino.Deposits.{
  deposit_request, kamino_adapter_deposit_cases,
}
use solana_yield_adapter_sta.Adapters.Kamino.Withdrawals
use solana_yield_adapter_sta.Adapters.Kamino.Withdrawals.{
  withdraw_request, kamino_adapter_withdraw_cases,
}
use solana_yield_adapter_sta.Adapters.Kamino.Values
use solana_yield_adapter_sta.Adapters.Kamino.Values.{kamino_current_value_outcome, reserve}

abbrev pub deposit : Invoke → List AccountInfo → ℕ → List ℕ → Action ⊤
deposit invoke accounts amount extra_data =
    Deposit.process invoke accounts (record { amount = amount; extra_data = extra_data })

abbrev pub withdraw : Invoke → List AccountInfo → ℕ → List ℕ → Action ⊤
withdraw invoke accounts amount extra_data =
    Withdraw.process invoke accounts (record { amount = amount; extra_data = extra_data })

abbrev deposit_decision : Decision
deposit_decision = λ caller remaining extra_data amount. deposit_request caller extra_data amount

abbrev withdraw_decision : Decision
withdraw_decision = λ caller remaining extra_data amount. withdraw_request caller extra_data amount

pub deposit_lem :
    (invoke : Invoke) (accounts : List AccountInfo) (amount : ℕ) (extra_data : List ℕ) (w : World)
    → deposit invoke accounts amount extra_data w
      ≡ transfer invoke program_id Deposits.reported deposit_decision accounts amount extra_data w
unfolding Deposit.process
deposit_lem invoke [] amount extra_data w = ground arith
deposit_lem invoke (caller ∷ remaining) amount extra_data w = ground (
  arith,
  kamino_adapter_deposit_cases invoke (record { authority = caller }) remaining
      (record { amount = amount; extra_data = extra_data }) w,
)

pub withdraw_lem :
    (invoke : Invoke) (accounts : List AccountInfo) (amount : ℕ) (extra_data : List ℕ) (w : World)
    → withdraw invoke accounts amount extra_data w
      ≡ transfer invoke program_id Withdrawals.reported withdraw_decision accounts amount extra_data
          w
unfolding Withdraw.process
withdraw_lem invoke [] amount extra_data w = ground arith
withdraw_lem invoke (caller ∷ remaining) amount extra_data w = ground (
  arith,
  kamino_adapter_withdraw_cases invoke (record { authority = caller }) remaining
      (record { amount = amount; extra_data = extra_data }) w,
)

pub current_value_lem :
    (available_liquidity : List ℕ → Option ℕ) (caller : AccountInfo) (remaining : List AccountInfo)
    (w : World)
    → CurrentValue.process available_liquidity (caller ∷ remaining) w
      ≡ as_signer false
          (caller ∷ remaining)
          (λ from rest. respond id (Values.reported from.key) (reserve available_liquidity rest))
          w
unfolding CurrentValue.process
current_value_lem available_liquidity caller remaining w = ground (
  arith,
  kamino_current_value_outcome available_liquidity (record { authority = caller }) remaining w,
)

-- The Kamino adapter on every caller and all remaining accounts: all three instructions refuse a
-- caller that has not signed with AccountNotSigner, and the deposit and the withdrawal one that
-- is not writable with ConstraintMut. The deposit then: a default authority is refused with
-- InvalidAccount, then empty extra data with InvalidArgs, then a selector above 3 with
-- UnknownFunction; with selectors 0 to 3 the protocol is invoked once on the remaining accounts,
-- with the selected discriminator, the amount in eight bytes and, for selector 3, the bytes
-- behind the selector; if it succeeds, the event with the caller and the amount is logged, and
-- otherwise its error is returned. The withdrawal then: a default authority is refused with
-- InvalidAccount, then empty extra data with InvalidArgs, then a selector above 2 with
-- UnknownFunction; with selectors 0 to 2 the protocol is invoked once on the remaining accounts,
-- with the selected discriminator, the amount in eight bytes and, for selectors 1 and 2, the
-- bytes behind the selector; if it succeeds, the event with the caller and the amount is logged,
-- and otherwise its error is returned. The value query then: a panic without an account, with
-- less than the discriminator's eight bytes of data or where the bytes behind them are no
-- reserve, AccountBorrowFailed for data that is borrowed, and otherwise the reserve's liquidity
-- becomes the return data and the event's value.
pub kamino_is_standard :
    (available_liquidity : List ℕ → Option ℕ) (invoke : Invoke) (caller : AccountInfo)
    (remaining : List AccountInfo) (amount : ℕ) (extra_data : List ℕ) (w : World)
    → (Deposit.process invoke
          (caller ∷ remaining)
          (record { amount = amount; extra_data = extra_data })
          w
        ≡ transfer invoke program_id Deposits.reported deposit_decision
            (caller ∷ remaining)
            amount
            extra_data
            w)
      × (Withdraw.process invoke
            (caller ∷ remaining)
            (record { amount = amount; extra_data = extra_data })
            w
          ≡ transfer invoke program_id Withdrawals.reported withdraw_decision
              (caller ∷ remaining)
              amount
              extra_data
              w)
      × (CurrentValue.process available_liquidity (caller ∷ remaining) w
          ≡ as_signer false
              (caller ∷ remaining)
              (λ from rest.
                respond id (Values.reported from.key) (reserve available_liquidity rest))
              w)
kamino_is_standard available_liquidity invoke caller remaining amount extra_data w = (
  deposit_lem invoke (caller ∷ remaining) amount extra_data w,
  withdraw_lem invoke (caller ∷ remaining) amount extra_data w,
  current_value_lem available_liquidity caller remaining w,
)

abbrev pub standard : (List ℕ → Option ℕ) → Standard
standard available_liquidity = record {
  protocol = program_id;
  id = id;
  deposit = deposit;
  withdraw = withdraw;
  current_value = CurrentValue.process available_liquidity;
  deposited = Deposits.reported;
  withdrawn = Withdrawals.reported;
  valued = Values.reported;
  deposit_decision = deposit_decision;
  withdraw_decision = withdraw_decision;
  value_mut = false;
  value_of = reserve available_liquidity;
  deposit_lem = deposit_lem;
  withdraw_lem = withdraw_lem;
  current_value_lem =
      λ caller remaining w h. current_value_lem available_liquidity caller remaining w;
}
