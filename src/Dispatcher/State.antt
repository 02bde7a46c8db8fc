-- ===== src/Dispatcher/State.antt =====
-- programs/dispatcher/src/constants.rs and state/: the seeds and the checks of the two accounts.
use solana_yield_adapter_sta.Prelude.{ℕ, ⊤, List, [], ◌∷◌, Bool, not, ◌==◌, is_some}
use solana_yield_adapter_sta.Prelude.Bytes.{le_bytes}
use solana_yield_adapter_sta.Types.{dispatcher}
use solana_yield_adapter_sta.Types.Dispatcher.{Registry, Adapter, invalid_account, invalid_status}
use solana_yield_adapter_sta.Interface.{AdapterStatus, from_u8, is_active}
use solana_yield_adapter_sta.Solana.Accounts.{Pubkey}
use solana_yield_adapter_sta.Solana.Result.{Result, ok, ◌>>=◌, ◌>>◌, require, ok_or}

-- 8yq3ahdnSz4GBcVWtohNF5V7MxnVmk6umN4TNhJX182n
abbrev pub id : Pubkey
id = 0x6366a8ba105d209cafb5acd0411abf6f57ce5e97fa53e4c8cff922036ba89076

abbrev pub seed_prefix : List ℕ
seed_prefix = b'd' ∷ b'i' ∷ b's' ∷ b'p' ∷ b'a' ∷ b't' ∷ b'c' ∷ b'h' ∷ b'e' ∷ b'r' ∷ []

abbrev pub seed_registry : List ℕ
seed_registry = b'r' ∷ b'e' ∷ b'g' ∷ b'i' ∷ b's' ∷ b't' ∷ b'r' ∷ b'y' ∷ []

abbrev pub seed_adapter : List ℕ
seed_adapter =
    b'a' ∷ b'd' ∷ b'a' ∷ b'p' ∷ b't' ∷ b'e' ∷ b'r' ∷ b'_' ∷ b'i' ∷ b'n' ∷ b'f' ∷ b'o' ∷ []

abbrev pub registry_seeds : List (List ℕ)
registry_seeds = seed_prefix ∷ seed_registry ∷ []

-- The seeds that every instruction on an adapter account names.
unfoldable pub adapter_seeds : Pubkey → Pubkey → List (List ℕ)
adapter_seeds program_id authority =
    seed_prefix ∷ le_bytes 32 program_id ∷ seed_adapter ∷ le_bytes 32 authority ∷ []

-- `Registry::invariant`
unfoldable pub registry_invariant : Registry → Result ⊤
registry_invariant r = require (not (r.initializer == 0)) (dispatcher invalid_account)

-- `Adapter::status`
unfoldable pub adapter_status : Adapter → Result AdapterStatus
adapter_status a = ok_or (from_u8 a.status) (dispatcher invalid_status)

-- `Adapter::is_active`
unfoldable pub adapter_is_active : Adapter → Result Bool
unfolding adapter_status
adapter_is_active a = do ok (is_active (← adapter_status a))

-- `Adapter::invariant`
unfoldable pub adapter_invariant : Adapter → Result ⊤
adapter_invariant a = do
  require (not (a.authority == 0)) (dispatcher invalid_account)
  require (not (a.program_id == 0)) (dispatcher invalid_account)
  require (not (a.supported_mint == 0)) (dispatcher invalid_account)
  require (is_some (from_u8 a.status)) (dispatcher invalid_status)
