-- ===== src/Interface/ReturnData.antt =====
-- `set_return_u64` and `read_return_u64` (crates/yield-adapter-interface/src/lib.rs).
use solana_yield_adapter_sta.Prelude.{
  ℕ, ◌≡◌, ◌<◌, ◌^◌, ◌++◌, List, [], some, ◌∙◌, ap, sym, arith, take, take-append,
}
use solana_yield_adapter_sta.Prelude.Bytes.{le_bytes, length-le_bytes, from_le_bytes-le_bytes}
use solana_yield_adapter_sta.Interface.{set_return_u64, read_return_u64}
use solana_yield_adapter_sta.Solana.Accounts.{Pubkey}
use solana_yield_adapter_sta.Solana.Result.{ok}
use solana_yield_adapter_sta.Solana.World.{World, ◌>>◌}
use mathlib.Core.List.{append-nil}

-- The first eight bytes are read, whatever follows them.
pub take-le_bytes : (n v : ℕ) (rest : List ℕ) → take n (le_bytes n v ++ rest) ≡ le_bytes n v
take-le_bytes n v rest =
    ap (λ k. take k (le_bytes n v ++ rest)) (sym (length-le_bytes n v))
    ∙ take-append (le_bytes n v) rest

pub take_all-le_bytes : (n v : ℕ) → take n (le_bytes n v) ≡ le_bytes n v
take_all-le_bytes n v = ap (take n) (sym (append-nil (le_bytes n v))) ∙ take-le_bytes n v []

-- A `u64` that was set as return data is read back, and only the return data has changed.
read_return_u64-set_return_u64 :
    (self : Pubkey) (v : ℕ) (w : World)
    → v < 2 ^ 64
    → (set_return_u64 self v >> read_return_u64) w
      ≡ ok (v, record w { return_data = some (self, le_bytes 8 v) })
unfolding set_return_u64 read_return_u64
read_return_u64-set_return_u64 self v w h =
    ground (arith, length-le_bytes 8 v, take_all-le_bytes 8 v, from_le_bytes-le_bytes 8 v)
