-- ===== src/Integration/Privileges/Adapters.antt =====
-- The calls that the adapters make.
use solana_yield_adapter_sta.Prelude.{ℕ, ◌≡◌, ◌∙◌, sym, refl, arith, List, [], ◌∷◌}
use solana_yield_adapter_sta.Types.{Event}
use solana_yield_adapter_sta.Solana.Accounts.{Pubkey, AccountInfo}
use solana_yield_adapter_sta.Solana.World.{World, Invoke}
use solana_yield_adapter_sta.Adapters.Relay.{Request, refuse, send, perform}
use solana_yield_adapter_sta.Adapters.Standard.{Decision, transfer}
use solana_yield_adapter_sta.Adapters.Venue.{Venue, standard}
use solana_yield_adapter_sta.Integration.Privileges.{supervised, supervised-rest}

perform-supervised :
    (caller : AccountInfo) (remaining : List AccountInfo) (program : Pubkey) (invoke : Invoke)
    (event : ℕ → Event) (r : Request) (w : World)
    → perform (supervised (caller ∷ remaining) program invoke) program event remaining r w
      ≡ perform invoke program event remaining r w
perform-supervised caller remaining program invoke event (refuse e) w = refl
perform-supervised caller remaining program invoke event (send bytes amount) w =
    ground (arith, supervised-rest caller remaining program invoke bytes remaining w)

transfer-supervised :
    (program : Pubkey) (invoke : Invoke) (event : Pubkey → ℕ → Event) (decide : Decision)
    (accounts : List AccountInfo) (amount : ℕ) (extra_data : List ℕ) (w : World)
    → transfer
        (supervised accounts program invoke)
        program
        event
        decide
        accounts
        amount
        extra_data
        w
      ≡ transfer invoke program event decide accounts amount extra_data w
transfer-supervised program invoke event decide [] amount extra_data w = refl
transfer-supervised program invoke event decide (caller ∷ remaining) amount extra_data w = ground (
  arith,
  perform-supervised caller remaining program invoke (event caller.key)
      (decide caller.key remaining extra_data amount) w,
)

module _ (invoke : Invoke) (v : Venue) (accounts : List AccountInfo) (amount : ℕ)
    (extra_data : List ℕ) (w : World) where
  -- A deposit and a withdrawal of each of the five adapters, on every input, come to the same under
  -- a runtime that refuses every call of a program other than the adapter's protocol, and every
  -- call that names an account which the adapter was not given or claims a signature or a write
  -- that the adapter does not have: the adapters never try.
  pub adapters-supervised :
      ((standard v).deposit
          (supervised accounts (standard v).protocol invoke)
          accounts
          amount
          extra_data
          w
        ≡ (standard v).deposit invoke accounts amount extra_data w)
      × ((standard v).withdraw
            (supervised accounts (standard v).protocol invoke)
            accounts
            amount
            extra_data
            w
          ≡ (standard v).withdraw invoke accounts amount extra_data w)
  adapters-supervised =
      let s = standard v in
      (
        s.deposit_lem (supervised accounts s.protocol invoke) accounts amount extra_data w
            ∙ transfer-supervised s.protocol invoke s.deposited s.deposit_decision accounts amount
                extra_data w
            ∙ sym (s.deposit_lem invoke accounts amount extra_data w),
        s.withdraw_lem (supervised accounts s.protocol invoke) accounts amount extra_data w
            ∙ transfer-supervised s.protocol invoke s.withdrawn s.withdraw_decision accounts amount
                extra_data w
            ∙ sym (s.withdraw_lem invoke accounts amount extra_data w),
      )
