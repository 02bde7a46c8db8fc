-- ===== src/Adapters/Maple/Withdrawals.antt =====
-- The CCIP request of `adapter_withdraw`
-- (programs/maple-adapter/src/instructions/adapter_withdraw.rs).
use solana_yield_adapter_sta.Prelude.{
  refl, ◌==◌, ◌&&◌, leb, if◌then◌else◌, ℕ, ◌≡◌, arith, length, List, [], ◌∷◌, ◌++◌,
}
use solana_yield_adapter_sta.Types.{Error, Event}
use solana_yield_adapter_sta.Types.Maple.{
  withdrawn, invalid_account, invalid_args, unauthorized, unknown_function,
}
use solana_yield_adapter_sta.Solana.Accounts.{AccountInfo, Pubkey}
use solana_yield_adapter_sta.Solana.World.{World, Invoke}
use solana_yield_adapter_sta.Adapters.Relay.{Request, refuse, send, perform}
use solana_yield_adapter_sta.Adapters.Maple.{program_id}
use solana_yield_adapter_sta.Adapters.Maple.Withdraw.{
  AdapterWithdraw, AdapterWithdrawArgs, adapter_withdraw,
}

-- The event for the amount that is reported.
abbrev pub reported : Pubkey → ℕ → Event
reported caller amount =
    Event.maple
      (withdrawn (record { authority = caller; program_id = program_id; amount = amount }))

-- By the caller's key, the extra data and the amount, once 18 accounts are there, the fourth of
-- them `fourth`.
abbrev pub admitted_request : Pubkey → AccountInfo → List ℕ → ℕ → Request
admitted_request caller fourth [] amount = refuse (Error.maple invalid_args)
admitted_request caller fourth (selector ∷ rest) amount =
    if (fourth.key == caller) && fourth.is_signer
    then (if selector == 0
        then send ((108 ∷ 216 ∷ 134 ∷ 191 ∷ 249 ∷ 234 ∷ 33 ∷ 84 ∷ []) ++ rest) amount
        else refuse (Error.maple unknown_function))
    else refuse (Error.maple unauthorized)

-- By the caller's key, the remaining accounts, the extra data and the amount.
abbrev pub withdraw_request : Pubkey → List AccountInfo → List ℕ → ℕ → Request
withdraw_request caller remaining [] amount = refuse (Error.maple invalid_args)
withdraw_request caller (x ∷ y ∷ z ∷ fourth ∷ rest) extra_data amount =
    if leb 14 (length rest)
    then admitted_request caller fourth extra_data amount
    else refuse (Error.maple invalid_account)
withdraw_request caller remaining extra_data amount = refuse (Error.maple invalid_account)

module _ (invoke : Invoke) (ctx : AdapterWithdraw) (remaining : List AccountInfo)
    (args : AdapterWithdrawArgs) (w : World) where
  by_parts :
      (accounts : List AccountInfo) (extra_data : List ℕ)
      → remaining ≡ accounts
      → args.extra_data ≡ extra_data
      → adapter_withdraw invoke ctx remaining args w
        ≡ perform invoke program_id
            (reported ctx.authority.key)
            remaining
            (withdraw_request ctx.authority.key accounts extra_data args.amount)
            w
  unfolding adapter_withdraw
  by_parts accounts [] h e = ground arith
  by_parts [] (selector ∷ data') h e = ground arith
  by_parts (x ∷ []) (selector ∷ data') h e = ground arith
  by_parts (x ∷ y ∷ []) (selector ∷ data') h e = ground arith
  by_parts (x ∷ y ∷ z ∷ []) (selector ∷ data') h e = ground arith
  by_parts (x ∷ y ∷ z ∷ fourth ∷ rest) (selector ∷ data') h e = ground arith

  -- Every branch of the Maple withdrawal, for every caller, account list, extra data and amount:
  -- empty extra data is InvalidArgs; fewer than 18 remaining accounts are InvalidAccount; unless
  -- the fourth of them is the caller and a signer, the call is Unauthorized; a selector other than
  -- 0 is UnknownFunction; and with selector 0 the router is invoked with its discriminator and the
  -- bytes behind the selector alone, the amount standing only in the event.
  pub maple_adapter_withdraw_cases :
      adapter_withdraw invoke ctx remaining args w
      ≡ perform invoke program_id
          (reported ctx.authority.key)
          remaining
          (withdraw_request ctx.authority.key remaining args.extra_data args.amount)
          w
  maple_adapter_withdraw_cases = by_parts remaining args.extra_data refl refl
