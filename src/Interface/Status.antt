-- ===== src/Interface/Status.antt =====
-- The encoding of `AdapterStatus` as a `u8` (crates/yield-adapter-interface/src/lib.rs).
use solana_yield_adapter_sta.Prelude.{ℕ, ◌≡◌, ◌↔◌, ◌≤◌, none, some, arith}
use solana_yield_adapter_sta.Interface.{AdapterStatus, active, paused, deprecated, from_u8, as_u8}

-- A byte decodes to a status exactly when it is that status's code, and every byte above 2
-- decodes to nothing.
from_u8_iff :
    (v : ℕ)
    → ((s : AdapterStatus) → (from_u8 v ≡ some s) ↔ (v ≡ as_u8 s)) × ((from_u8 v ≡ none) ↔ (3 ≤ v))
unfolding from_u8 as_u8
from_u8_iff v = (
  elim [ active ↦ ground arith | paused ↦ ground arith | deprecated ↦ ground arith ],
  ground arith,
)
