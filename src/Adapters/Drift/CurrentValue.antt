-- ===== src/Adapters/Drift/CurrentValue.antt =====
-- programs/drift-adapter/src/instructions/adapter_current_value.rs
use solana_yield_adapter_sta.Prelude.{ℕ, ⊤, List, [], ◌∷◌}
use solana_yield_adapter_sta.Types.{anchor, account_not_enough_keys, account_borrow_failed, Event}
use solana_yield_adapter_sta.Types.Drift.{valued}
use solana_yield_adapter_sta.Interface.{account_offset, set_return_u64}
use solana_yield_adapter_sta.Interface.Layout.{read_u64_le}
use solana_yield_adapter_sta.Solana.Accounts.{AccountInfo}
use solana_yield_adapter_sta.Solana.Result.{ok_or}
use solana_yield_adapter_sta.Solana.World.{Action, ◌>>=◌, ◌>>◌, pure, fail, lift, emit, index}
use solana_yield_adapter_sta.Solana.Anchor.{signer, mutable}
use solana_yield_adapter_sta.Adapters.Drift.{program_id, id}

pub record AdapterCurrentValue : Type 0 where
  pub authority : AccountInfo

-- The accounts of the instruction, and the remaining ones.
unfoldable pub try_accounts : List AccountInfo → Action (AdapterCurrentValue × List AccountInfo)
try_accounts (authority ∷ remaining) = do
  signer authority
  mutable authority
  pure (record { authority = authority }, remaining)
try_accounts [] = fail (anchor account_not_enough_keys)

-- `account_offset!(8, 32, 32, 32)`
abbrev pub spot_0_scaled_balance : ℕ
spot_0_scaled_balance = account_offset 8 (32 ∷ 32 ∷ 32 ∷ [])

unfoldable pub adapter_current_value : AdapterCurrentValue → List AccountInfo → Action ⊤
adapter_current_value ctx remaining = do
  account ← index remaining 0
  bytes ← lift (ok_or account.borrow (anchor account_borrow_failed))
  scaled_balance ← lift (read_u64_le bytes spot_0_scaled_balance)
  set_return_u64 id scaled_balance
  emit (
      Event.drift (
        valued (record {
          authority = ctx.authority.key;
          program_id = program_id;
          current_value = scaled_balance;
        })))

-- The instruction as the program exposes it.
unfoldable pub process : List AccountInfo → Action ⊤
unfolding try_accounts adapter_current_value
process accounts = do (ctx, remaining) ← try_accounts accounts; adapter_current_value ctx remaining
