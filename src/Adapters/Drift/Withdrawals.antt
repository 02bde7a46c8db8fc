-- ===== src/Adapters/Drift/Withdrawals.antt =====
-- The selectors of `adapter_withdraw`
-- (programs/drift-adapter/src/instructions/adapter_withdraw.rs).
use solana_yield_adapter_sta.Prelude.{zero, suc, refl, ℕ, ◌≡◌, arith, List, [], ◌∷◌, ◌++◌}
use solana_yield_adapter_sta.Prelude.Bytes.{le_bytes}
use solana_yield_adapter_sta.Types.{Error, Event, panic}
use solana_yield_adapter_sta.Types.Drift.{
  withdrawn, invalid_account, invalid_args, unknown_function,
}
use solana_yield_adapter_sta.Solana.Accounts.{AccountInfo, Pubkey}
use solana_yield_adapter_sta.Solana.World.{World, Invoke}
use solana_yield_adapter_sta.Adapters.Relay.{Request, refuse, send, perform}
use solana_yield_adapter_sta.Adapters.Drift.{program_id}
use solana_yield_adapter_sta.Adapters.Drift.Withdraw.{
  AdapterWithdraw, AdapterWithdrawArgs, adapter_withdraw,
}

-- The event for the amount that is reported.
abbrev pub reported : Pubkey → ℕ → Event
reported caller amount =
    Event.drift
      (withdrawn (record { authority = caller; program_id = program_id; amount = amount }))

-- By the caller's key, the extra data and the amount.
abbrev pub withdraw_request : Pubkey → List ℕ → ℕ → Request
withdraw_request zero extra_data amount = refuse (Error.drift invalid_account)
withdraw_request (suc k) [] amount = refuse (Error.drift invalid_args)
withdraw_request (suc k) (zero ∷ m ∷ n ∷ tail) amount =
    send
      ((183 ∷ 18 ∷ 70 ∷ 156 ∷ 148 ∷ 109 ∷ 161 ∷ 34 ∷ []) ++ (m ∷ n ∷ (le_bytes 8 amount ++ tail)))
      amount
withdraw_request (suc k) (suc zero ∷ m ∷ n ∷ tail) amount =
    send ((142 ∷ 70 ∷ 204 ∷ 92 ∷ 73 ∷ 106 ∷ 180 ∷ 52 ∷ []) ++ (m ∷ n ∷ le_bytes 8 amount)) amount
withdraw_request (suc k) (suc (suc zero) ∷ m ∷ n ∷ tail) amount =
    send ((128 ∷ 166 ∷ 142 ∷ 9 ∷ 254 ∷ 187 ∷ 143 ∷ 174 ∷ []) ++ (m ∷ n ∷ [])) 0
withdraw_request (suc k) (suc (suc (suc selector)) ∷ rest) amount =
    refuse (Error.drift unknown_function)
withdraw_request (suc k) (selector ∷ rest) amount = refuse panic

module _ (invoke : Invoke) (ctx : AdapterWithdraw) (remaining : List AccountInfo)
    (args : AdapterWithdrawArgs) (w : World) where
  by_parts :
      (k : Pubkey) (extra_data : List ℕ)
      → ctx.authority.key ≡ k
      → args.extra_data ≡ extra_data
      → adapter_withdraw invoke ctx remaining args w
        ≡ perform invoke program_id
            (reported ctx.authority.key)
            remaining
            (withdraw_request k extra_data args.amount)
            w
  unfolding adapter_withdraw
  by_parts zero extra_data h e = ground arith
  by_parts (suc k) [] h e = ground arith
  by_parts (suc k) (zero ∷ []) h e = ground arith
  by_parts (suc k) (zero ∷ m ∷ []) h e = ground arith
  by_parts (suc k) (zero ∷ m ∷ n ∷ tail) h e = ground arith
  by_parts (suc k) (suc zero ∷ []) h e = ground arith
  by_parts (suc k) (suc zero ∷ m ∷ []) h e = ground arith
  by_parts (suc k) (suc zero ∷ m ∷ n ∷ tail) h e = ground arith
  by_parts (suc k) (suc (suc zero) ∷ []) h e = ground arith
  by_parts (suc k) (suc (suc zero) ∷ m ∷ []) h e = ground arith
  by_parts (suc k) (suc (suc zero) ∷ m ∷ n ∷ tail) h e = ground arith
  by_parts (suc k) (suc (suc (suc selector)) ∷ rest) h e = ground arith

  -- Every branch of the Drift withdrawal, for every caller, extra data and amount: a default
  -- authority is InvalidAccount, empty extra data is InvalidArgs, a selector above 2 is
  -- UnknownFunction. Every selector up to 2 panics unless two bytes, the market index, follow it.
  -- With them, selector 0 sends the index, the amount in eight bytes and the rest, selector 1 the
  -- index and the amount, selector 2 the index alone, with an event of amount 0.
  pub drift_adapter_withdraw_cases :
      adapter_withdraw invoke ctx remaining args w
      ≡ perform invoke program_id
          (reported ctx.authority.key)
          remaining
          (withdraw_request ctx.authority.key args.extra_data args.amount)
          w
  drift_adapter_withdraw_cases = by_parts ctx.authority.key args.extra_data refl refl
