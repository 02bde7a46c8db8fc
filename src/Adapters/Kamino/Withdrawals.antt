-- ===== src/Adapters/Kamino/Withdrawals.antt =====
-- The selectors of `adapter_withdraw`
-- (programs/kamino-adapter/src/instructions/adapter_withdraw.rs).
use solana_yield_adapter_sta.Prelude.{refl, ℕ, zero, suc, ◌≡◌, ◌≢◌, ◌<◌, arith, List, [], ◌∷◌, ◌++◌}
use solana_yield_adapter_sta.Prelude.Bytes.{le_bytes}
use solana_yield_adapter_sta.Types.{Error, Event}
use solana_yield_adapter_sta.Types.Kamino.{
  withdrawn, invalid_account, invalid_args, unknown_function,
}
use solana_yield_adapter_sta.Solana.Accounts.{AccountInfo, Pubkey}
use solana_yield_adapter_sta.Solana.World.{World, Invoke}
use solana_yield_adapter_sta.Adapters.Relay.{relay, Request, refuse, send, perform}
use solana_yield_adapter_sta.Adapters.Kamino.{program_id}
use solana_yield_adapter_sta.Adapters.Kamino.Withdraw.{
  AdapterWithdraw, AdapterWithdrawArgs, adapter_withdraw,
}
use mathlib.Core.List.{append-nil}

-- The data of the protocol's instruction, by selector, for the amount and the bytes behind the
-- selector. It is asked only below 3.
abbrev pub withdraw_bytes : ℕ → ℕ → List ℕ → List ℕ
withdraw_bytes zero amount rest =
    (235 ∷ 52 ∷ 119 ∷ 152 ∷ 149 ∷ 197 ∷ 20 ∷ 7 ∷ []) ++ le_bytes 8 amount
withdraw_bytes (suc zero) amount rest =
    (234 ∷ 117 ∷ 181 ∷ 125 ∷ 185 ∷ 142 ∷ 220 ∷ 29 ∷ []) ++ (le_bytes 8 amount ++ rest)
withdraw_bytes _ amount rest =
    (141 ∷ 153 ∷ 39 ∷ 15 ∷ 64 ∷ 61 ∷ 88 ∷ 84 ∷ []) ++ (le_bytes 8 amount ++ rest)

-- The event for the amount that is reported.
abbrev pub reported : Pubkey → ℕ → Event
reported caller amount =
    Event.kamino
      (withdrawn (record { authority = caller; program_id = program_id; amount = amount }))

-- By the caller's key, the extra data and the amount.
abbrev pub withdraw_request : Pubkey → List ℕ → ℕ → Request
withdraw_request zero extra_data amount = refuse (Error.kamino invalid_account)
withdraw_request (suc k) [] amount = refuse (Error.kamino invalid_args)
withdraw_request (suc k) (zero ∷ rest) amount = send (withdraw_bytes 0 amount rest) amount
withdraw_request (suc k) ((suc zero) ∷ rest) amount = send (withdraw_bytes 1 amount rest) amount
withdraw_request (suc k) ((suc (suc zero)) ∷ rest) amount =
    send (withdraw_bytes 2 amount rest) amount
withdraw_request (suc k) ((suc (suc (suc selector))) ∷ rest) amount =
    refuse (Error.kamino unknown_function)

module _ (invoke : Invoke) (ctx : AdapterWithdraw) (remaining : List AccountInfo)
    (args : AdapterWithdrawArgs) (w : World) where
  pub selected :
      (selector : ℕ) (rest : List ℕ)
      → ctx.authority.key ≢ 0
      → args.extra_data ≡ selector ∷ rest
      → selector < 3
      → adapter_withdraw invoke ctx remaining args w
        ≡ relay invoke program_id remaining
            (withdraw_bytes selector args.amount rest)
            (Event.kamino (
              withdrawn (record {
                authority = ctx.authority.key;
                program_id = program_id;
                amount = args.amount;
              })))
            w
  unfolding adapter_withdraw
  selected zero rest key e h = ground (arith, append-nil (le_bytes 8 args.amount))
  selected (suc zero) rest key e h = ground arith
  selected (suc (suc zero)) rest key e h = ground arith
  selected (suc (suc (suc s))) rest key e h = absurd (omega arith)

  by_parts :
      (k : Pubkey) (extra_data : List ℕ)
      → ctx.authority.key ≡ k
      → args.extra_data ≡ extra_data
      → adapter_withdraw invoke ctx remaining args w
        ≡ perform invoke program_id
            (reported ctx.authority.key)
            remaining
            (withdraw_request k extra_data args.amount)
            w
  unfolding adapter_withdraw
  by_parts zero extra_data h e = ground arith
  by_parts (suc k) [] h e = ground arith
  by_parts (suc k) (zero ∷ rest) h e = selected 0 rest (λ z. absurd (omega arith)) e (omega arith)
  by_parts (suc k) ((suc zero) ∷ rest) h e =
      selected 1 rest (λ z. absurd (omega arith)) e (omega arith)
  by_parts (suc k) ((suc (suc zero)) ∷ rest) h e =
      selected 2 rest (λ z. absurd (omega arith)) e (omega arith)
  by_parts (suc k) ((suc (suc (suc selector))) ∷ rest) h e = ground arith

  -- Every branch of the Kamino withdrawal, for every caller, extra data and amount: a default
  -- authority is refused with InvalidAccount, then empty extra data with InvalidArgs, then a
  -- selector above 2 with UnknownFunction; with selectors 0 to 2 the protocol is invoked once on
  -- the remaining accounts, with the selected discriminator, the amount in eight bytes and, for
  -- selectors 1 and 2, the bytes behind the selector; if it succeeds, the event with the caller
  -- and the amount is logged, and otherwise its error is returned.
  pub kamino_adapter_withdraw_cases :
      adapter_withdraw invoke ctx remaining args w
      ≡ perform invoke program_id
          (reported ctx.authority.key)
          remaining
          (withdraw_request ctx.authority.key args.extra_data args.amount)
          w
  kamino_adapter_withdraw_cases = by_parts ctx.authority.key args.extra_data refl refl
