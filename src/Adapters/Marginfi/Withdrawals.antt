-- ===== src/Adapters/Marginfi/Withdrawals.antt =====
-- The selectors of `adapter_withdraw`
-- (programs/marginfi-adapter/src/instructions/adapter_withdraw.rs).
use solana_yield_adapter_sta.Prelude.{refl, ℕ, zero, suc, ◌≡◌, ◌≢◌, ◌<◌, arith, List, [], ◌∷◌, ◌++◌}
use solana_yield_adapter_sta.Prelude.Bytes.{le_bytes}
use solana_yield_adapter_sta.Types.{Error, Event}
use solana_yield_adapter_sta.Types.Marginfi.{
  withdrawn, invalid_account, invalid_args, unknown_function,
}
use solana_yield_adapter_sta.Solana.Accounts.{AccountInfo, Pubkey}
use solana_yield_adapter_sta.Solana.World.{World, Invoke}
use solana_yield_adapter_sta.Adapters.Relay.{relay, Request, refuse, send, perform}
use solana_yield_adapter_sta.Adapters.Marginfi.{program_id}
use solana_yield_adapter_sta.Adapters.Marginfi.Withdraw.{
  AdapterWithdraw, AdapterWithdrawArgs, adapter_withdraw,
}

-- The data of the protocol's instruction, by selector, for the amount and the bytes behind the
-- selector. It is asked only below 1.
abbrev pub withdraw_bytes : ℕ → ℕ → List ℕ → List ℕ
withdraw_bytes selector amount rest =
    (36 ∷ 72 ∷ 74 ∷ 19 ∷ 210 ∷ 210 ∷ 192 ∷ 192 ∷ []) ++ (le_bytes 8 amount ++ rest)

-- The event for the amount that is reported.
abbrev pub reported : Pubkey → ℕ → Event
reported caller amount =
    Event.marginfi
      (withdrawn (record { authority = caller; program_id = program_id; amount = amount }))

-- By the caller's key, the extra data and the amount.
abbrev pub withdraw_request : Pubkey → List ℕ → ℕ → Request
withdraw_request zero extra_data amount = refuse (Error.marginfi invalid_account)
withdraw_request (suc k) [] amount = refuse (Error.marginfi invalid_args)
withdraw_request (suc k) (zero ∷ rest) amount = send (withdraw_bytes 0 amount rest) amount
withdraw_request (suc k) ((suc selector) ∷ rest) amount = refuse (Error.marginfi unknown_function)

module _ (invoke : Invoke) (ctx : AdapterWithdraw) (remaining : List AccountInfo)
    (args : AdapterWithdrawArgs) (w : World) where
  pub selected :
      (selector : ℕ) (rest : List ℕ)
      → ctx.authority.key ≢ 0
      → args.extra_data ≡ selector ∷ rest
      → selector < 1
      → adapter_withdraw invoke ctx remaining args w
        ≡ relay invoke program_id remaining
            (withdraw_bytes selector args.amount rest)
            (Event.marginfi (
              withdrawn (record {
                authority = ctx.authority.key;
                program_id = program_id;
                amount = args.amount;
              })))
            w
  unfolding adapter_withdraw
  selected zero rest key e h = ground arith
  selected (suc s) rest key e h = absurd (omega arith)

  by_parts :
      (k : Pubkey) (extra_data : List ℕ)
      → ctx.authority.key ≡ k
      → args.extra_data ≡ extra_data
      → adapter_withdraw invoke ctx remaining args w
        ≡ perform invoke program_id
            (reported ctx.authority.key)
            remaining
            (withdraw_request k extra_data args.amount)
            w
  unfolding adapter_withdraw
  by_parts zero extra_data h e = ground arith
  by_parts (suc k) [] h e = ground arith
  by_parts (suc k) (zero ∷ rest) h e = selected 0 rest (λ z. absurd (omega arith)) e (omega arith)
  by_parts (suc k) ((suc selector) ∷ rest) h e = ground arith

  -- Every branch of the MarginFi withdrawal, for every caller, extra data and amount: a default
  -- authority is refused with InvalidAccount, then empty extra data with InvalidArgs, then a
  -- selector other than 0 with UnknownFunction; with selector 0 the protocol is invoked once on
  -- the remaining accounts, with the discriminator, the amount in eight bytes and the bytes behind
  -- the selector; if it succeeds, the event with the caller and the amount is logged, and
  -- otherwise its error is returned.
  pub marginfi_adapter_withdraw_cases :
      adapter_withdraw invoke ctx remaining args w
      ≡ perform invoke program_id
          (reported ctx.authority.key)
          remaining
          (withdraw_request ctx.authority.key args.extra_data args.amount)
          w
  marginfi_adapter_withdraw_cases = by_parts ctx.authority.key args.extra_data refl refl
