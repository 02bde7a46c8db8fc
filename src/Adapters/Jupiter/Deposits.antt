-- ===== src/Adapters/Jupiter/Deposits.antt =====
-- The selectors of `adapter_deposit`
-- (programs/jupiter-adapter/src/instructions/adapter_deposit.rs).
use solana_yield_adapter_sta.Prelude.{
  refl, inl, inr, Bool-cases, ◌==◌, if◌then◌else◌, ℕ, zero, suc, ◌≡◌, ◌≢◌, ◌<◌, arith, length, List,
  [], ◌∷◌, ◌++◌,
}
use solana_yield_adapter_sta.Prelude.Bytes.{le_bytes}
use solana_yield_adapter_sta.Types.{Error, Event}
use solana_yield_adapter_sta.Types.Jupiter.{
  deposited, invalid_account, invalid_args, unknown_function,
}
use solana_yield_adapter_sta.Solana.Accounts.{AccountInfo, Pubkey}
use solana_yield_adapter_sta.Solana.World.{World, Invoke}
use solana_yield_adapter_sta.Adapters.Relay.{relay, Request, refuse, send, perform}
use solana_yield_adapter_sta.Adapters.Jupiter.{program_id}
use solana_yield_adapter_sta.Adapters.Jupiter.Deposit.{
  AdapterDeposit, AdapterDepositArgs, adapter_deposit,
}
use mathlib.Core.List.{append-nil}

-- The data of the protocol's instruction, by selector, for the amount and the bytes behind the
-- selector. It is asked only below 2.
abbrev pub deposit_bytes : ℕ → ℕ → List ℕ → List ℕ
deposit_bytes zero amount rest = (17 ∷ 2 ∷ 195 ∷ 190 ∷ 76 ∷ 16 ∷ 238 ∷ 74 ∷ []) ++ le_bytes 8 amount
deposit_bytes _ amount rest =
    (228 ∷ 162 ∷ 78 ∷ 28 ∷ 70 ∷ 219 ∷ 116 ∷ 115 ∷ []) ++ (le_bytes 8 amount ++ rest)

-- The event for the amount that is reported.
abbrev pub reported : Pubkey → ℕ → Event
reported caller amount =
    Event.jupiter
      (deposited (record { authority = caller; program_id = program_id; amount = amount }))

-- By the extra data and the amount.
abbrev pub selected_request : List ℕ → ℕ → Request
selected_request [] amount = refuse (Error.jupiter invalid_args)
selected_request (zero ∷ rest) amount = send (deposit_bytes 0 amount rest) amount
selected_request ((suc zero) ∷ rest) amount = send (deposit_bytes 1 amount rest) amount
selected_request ((suc (suc selector)) ∷ rest) amount = refuse (Error.jupiter unknown_function)

-- By the caller's key, the remaining accounts, the extra data and the amount.
abbrev pub deposit_request : Pubkey → List AccountInfo → List ℕ → ℕ → Request
deposit_request zero remaining extra_data amount = refuse (Error.jupiter invalid_account)
deposit_request (suc k) remaining extra_data amount =
    if length remaining == 14
    then selected_request extra_data amount
    else refuse (Error.jupiter invalid_account)

module _ (invoke : Invoke) (ctx : AdapterDeposit) (remaining : List AccountInfo)
    (args : AdapterDepositArgs) (w : World) where
  pub selected :
      (selector : ℕ) (rest : List ℕ)
      → ctx.authority.key ≢ 0
      → length remaining ≡ 14
      → args.extra_data ≡ selector ∷ rest
      → selector < 2
      → adapter_deposit invoke ctx remaining args w
        ≡ relay invoke program_id remaining
            (deposit_bytes selector args.amount rest)
            (Event.jupiter (
              deposited (record {
                authority = ctx.authority.key;
                program_id = program_id;
                amount = args.amount;
              })))
            w
  unfolding adapter_deposit
  selected zero rest key len e h = ground (arith, append-nil (le_bytes 8 args.amount))
  selected (suc zero) rest key len e h = ground arith
  selected (suc (suc s)) rest key len e h = absurd (omega arith)

  by_parts :
      (k : Pubkey) (extra_data : List ℕ)
      → ctx.authority.key ≡ k
      → args.extra_data ≡ extra_data
      → adapter_deposit invoke ctx remaining args w
        ≡ perform invoke program_id
            (reported ctx.authority.key)
            remaining
            (deposit_request k remaining extra_data args.amount)
            w
  unfolding adapter_deposit
  by_parts zero extra_data h e = ground arith
  by_parts (suc k) [] h e = elim (Bool-cases (length remaining == 14)) [
    | inl t ↦ ground arith
    | inr f ↦ ground arith
  ]
  by_parts (suc k) (zero ∷ rest) h e = elim (Bool-cases (length remaining == 14)) [
    | inl t ↦
        ground (arith, selected 0 rest (λ z. absurd (omega arith)) (ground arith) e (omega arith))
    | inr f ↦ ground arith
  ]
  by_parts (suc k) ((suc zero) ∷ rest) h e = elim (Bool-cases (length remaining == 14)) [
    | inl t ↦
        ground (arith, selected 1 rest (λ z. absurd (omega arith)) (ground arith) e (omega arith))
    | inr f ↦ ground arith
  ]
  by_parts (suc k) ((suc (suc selector)) ∷ rest) h e = elim (Bool-cases (length remaining == 14)) [
    | inl t ↦ ground arith
    | inr f ↦ ground arith
  ]

  -- Every branch of the Jupiter deposit, for every caller, extra data and amount: a default
  -- authority, or a number of remaining accounts other than 14, is refused with InvalidAccount,
  -- then empty extra data with InvalidArgs, then a selector above 1 with UnknownFunction; with
  -- selectors 0 to 1 the protocol is invoked once on the remaining accounts, with the selected
  -- discriminator, the amount in eight bytes and, for selector 1, the bytes behind the selector;
  -- if it succeeds, the event with the caller and the amount is logged, and otherwise its error is
  -- returned.
  pub jupiter_adapter_deposit_cases :
      adapter_deposit invoke ctx remaining args w
      ≡ perform invoke program_id
          (reported ctx.authority.key)
          remaining
          (deposit_request ctx.authority.key remaining args.extra_data args.amount)
          w
  jupiter_adapter_deposit_cases = by_parts ctx.authority.key args.extra_data refl refl
