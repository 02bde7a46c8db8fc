-- ===== src/Adapters/Drift/Deposits.antt =====
-- The selectors of `adapter_deposit` (programs/drift-adapter/src/instructions/adapter_deposit.rs).
use solana_yield_adapter_sta.Prelude.{zero, suc, refl, ℕ, ◌≡◌, arith, List, [], ◌∷◌, ◌++◌}
use solana_yield_adapter_sta.Prelude.Bytes.{le_bytes}
use solana_yield_adapter_sta.Types.{Error, Event, panic}
use solana_yield_adapter_sta.Types.Drift.{
  deposited, invalid_account, invalid_args, unknown_function,
}
use solana_yield_adapter_sta.Solana.Accounts.{AccountInfo, Pubkey}
use solana_yield_adapter_sta.Solana.World.{World, Invoke}
use solana_yield_adapter_sta.Adapters.Relay.{Request, refuse, send, perform}
use solana_yield_adapter_sta.Adapters.Drift.{program_id}
use solana_yield_adapter_sta.Adapters.Drift.Deposit.{
  AdapterDeposit, AdapterDepositArgs, adapter_deposit,
}

-- The event for the amount that is reported.
abbrev pub reported : Pubkey → ℕ → Event
reported caller amount =
    Event.drift
      (deposited (record { authority = caller; program_id = program_id; amount = amount }))

-- By the caller's key, the extra data and the amount.
abbrev pub deposit_request : Pubkey → List ℕ → ℕ → Request
deposit_request zero extra_data amount = refuse (Error.drift invalid_account)
deposit_request (suc k) [] amount = refuse (Error.drift invalid_args)
deposit_request (suc k) (zero ∷ m ∷ n ∷ tail) amount =
    send
      ((242 ∷ 35 ∷ 198 ∷ 137 ∷ 82 ∷ 225 ∷ 242 ∷ 182 ∷ []) ++ (m ∷ n ∷ (le_bytes 8 amount ++ tail)))
      amount
deposit_request (suc k) (zero ∷ rest) amount = refuse panic
deposit_request (suc k) (suc zero ∷ rest) amount =
    send ((251 ∷ 144 ∷ 115 ∷ 11 ∷ 222 ∷ 47 ∷ 62 ∷ 236 ∷ []) ++ (rest ++ le_bytes 8 amount)) amount
deposit_request (suc k) (suc (suc zero) ∷ rest) amount =
    send ((187 ∷ 179 ∷ 243 ∷ 70 ∷ 248 ∷ 90 ∷ 92 ∷ 147 ∷ []) ++ rest) 0
deposit_request (suc k) (suc (suc (suc selector)) ∷ rest) amount =
    refuse (Error.drift unknown_function)

module _ (invoke : Invoke) (ctx : AdapterDeposit) (remaining : List AccountInfo)
    (args : AdapterDepositArgs) (w : World) where
  by_parts :
      (k : Pubkey) (extra_data : List ℕ)
      → ctx.authority.key ≡ k
      → args.extra_data ≡ extra_data
      → adapter_deposit invoke ctx remaining args w
        ≡ perform invoke program_id
            (reported ctx.authority.key)
            remaining
            (deposit_request k extra_data args.amount)
            w
  unfolding adapter_deposit
  by_parts zero extra_data h e = ground arith
  by_parts (suc k) [] h e = ground arith
  by_parts (suc k) (zero ∷ []) h e = ground arith
  by_parts (suc k) (zero ∷ m ∷ []) h e = ground arith
  by_parts (suc k) (zero ∷ m ∷ n ∷ tail) h e = ground arith
  by_parts (suc k) (suc zero ∷ rest) h e = ground arith
  by_parts (suc k) (suc (suc zero) ∷ rest) h e = ground arith
  by_parts (suc k) (suc (suc (suc selector)) ∷ rest) h e = ground arith

  -- Every branch of the Drift deposit, for every caller, extra data and amount: a default
  -- authority is InvalidAccount, empty extra data is InvalidArgs, a selector above 2 is
  -- UnknownFunction. Selector 0 panics unless two bytes follow it; with them, the protocol gets
  -- the market index, the amount in eight bytes and the rest. Selector 1 sends what follows it and
  -- then the amount, selector 2 what follows it alone, with an event of amount 0.
  pub drift_adapter_deposit_cases :
      adapter_deposit invoke ctx remaining args w
      ≡ perform invoke program_id
          (reported ctx.authority.key)
          remaining
          (deposit_request ctx.authority.key args.extra_data args.amount)
          w
  drift_adapter_deposit_cases = by_parts ctx.authority.key args.extra_data refl refl
