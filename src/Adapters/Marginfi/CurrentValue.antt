-- ===== src/Adapters/Marginfi/CurrentValue.antt =====
-- programs/marginfi-adapter/src/instructions/adapter_current_value.rs
use solana_yield_adapter_sta.Prelude.{ℕ, ⊤, List, [], ◌∷◌, ◌%◌, ◌^◌}
use solana_yield_adapter_sta.Types.{anchor, account_not_enough_keys, account_borrow_failed, Event}
use solana_yield_adapter_sta.Types.Marginfi.{valued}
use solana_yield_adapter_sta.Interface.{account_offset, set_return_u64}
use solana_yield_adapter_sta.Interface.Layout.{read_u128_le}
use solana_yield_adapter_sta.Solana.Accounts.{AccountInfo}
use solana_yield_adapter_sta.Solana.Result.{ok_or}
use solana_yield_adapter_sta.Solana.World.{Action, ◌>>=◌, ◌>>◌, pure, fail, lift, emit, index}
use solana_yield_adapter_sta.Solana.Anchor.{signer, mutable}
use solana_yield_adapter_sta.Adapters.Marginfi.{program_id, id}

pub record AdapterCurrentValue : Type 0 where
  pub authority : AccountInfo

-- The accounts of the instruction, and the remaining ones.
unfoldable pub try_accounts : List AccountInfo → Action (AdapterCurrentValue × List AccountInfo)
try_accounts (authority ∷ remaining) = do
  signer authority
  mutable authority
  pure (record { authority = authority }, remaining)
try_accounts [] = fail (anchor account_not_enough_keys)

-- `account_offset!(8, 32)`
abbrev pub asset_shares_offset : ℕ
asset_shares_offset = account_offset 8 (32 ∷ [])

unfoldable pub adapter_current_value : AdapterCurrentValue → List AccountInfo → Action ⊤
adapter_current_value ctx remaining = do
  account ← index remaining 0
  bytes ← lift (ok_or account.borrow (anchor account_borrow_failed))
  asset_shares ← lift (read_u128_le bytes asset_shares_offset)
  let current_value = asset_shares % 2 ^ 64
  set_return_u64 id current_value
  emit (
      Event.marginfi (
        valued (record {
          authority = ctx.authority.key;
          program_id = program_id;
          current_value = current_value;
        })))

-- The instruction as the program exposes it.
unfoldable pub process : List AccountInfo → Action ⊤
unfolding try_accounts adapter_current_value
process accounts = do (ctx, remaining) ← try_accounts accounts; adapter_current_value ctx remaining
