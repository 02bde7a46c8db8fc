-- ===== src/Prelude/Bytes.antt =====
-- Bytes as numbers below 256, and the little-endian conversions of Rust's integer types.
use Prim.Native.Nat.{ℕ, zero, suc, ◌+◌, ◌-◌, ◌*◌, ◌/◌, ◌%◌, ◌^◌, ◌≤◌, ◌<◌}
use mathlib.Core.Path.{◌≡◌, refl, sym, ap, ap₂, ◌∙◌, subst}
use mathlib.Core.List.{List, [], ◌∷◌, ◌++◌}
use native.Mathlib.Omega.{arith}
use native.Mathlib.Nat.{pow-suc}
use solana_yield_adapter_sta.Prelude.Tests.{ltb, if◌then◌else◌}
use solana_yield_adapter_sta.Prelude.Int.{ℤ, pos, negsuc}
use solana_yield_adapter_sta.Prelude.Lists.{
  length-take, take-append-drop, All-take, length, All, take, drop,
}

abbrev pub IsByte : ℕ → Type 0
IsByte b = b < 256

-- `to_le_bytes` of an unsigned integer of `n` bytes.
unfoldable pub le_bytes : ℕ → ℕ → List ℕ
le_bytes zero v = []
le_bytes (suc n) v = (v % 256) ∷ le_bytes n (v / 256)

-- `from_le_bytes`.
unfoldable pub from_le_bytes : List ℕ → ℕ
from_le_bytes [] = 0
from_le_bytes (b ∷ bs) = b + 256 * from_le_bytes bs

-- The signed integer of `bits` bits that an unsigned one of the same bits stands for.
abbrev pub signed : ℕ → ℕ → ℤ
signed bits v = if ltb v (2 ^ (bits - 1)) then pos v else negsuc (2 ^ bits - v - 1)

pub length-le_bytes : (n v : ℕ) → length (le_bytes n v) ≡ n
unfolding le_bytes
length-le_bytes zero v = refl
length-le_bytes (suc n) v = ap suc (length-le_bytes n (v / 256))

pub le_bytes-IsByte : (n v : ℕ) → All IsByte (le_bytes n v)
unfolding le_bytes
le_bytes-IsByte zero v = tt
le_bytes-IsByte (suc n) v = (omega arith, le_bytes-IsByte n (v / 256))

-- The low `n` bytes of a number are all that `le_bytes` keeps.
pub from_le_bytes-le_bytes : (n v : ℕ) → v < 256 ^ n → from_le_bytes (le_bytes n v) ≡ v
unfolding le_bytes from_le_bytes
from_le_bytes-le_bytes zero v h = omega arith
from_le_bytes-le_bytes (suc n) v h =
    omega (arith, from_le_bytes-le_bytes n (v / 256) (omega (arith, pow-suc 256 n)))

mod_head : (b n : ℕ) → b < 256 → (b + 256 * n) % 256 ≡ b
mod_head b n h = omega arith

div_head : (b n : ℕ) → b < 256 → (b + 256 * n) / 256 ≡ n
div_head b n h = omega arith

pub le_bytes-from_le_bytes :
    (bs : List ℕ) → All IsByte bs → le_bytes (length bs) (from_le_bytes bs) ≡ bs
unfolding le_bytes from_le_bytes
le_bytes-from_le_bytes [] h = refl
le_bytes-from_le_bytes (b ∷ bs) h =
    ap₂ (λ x xs. x ∷ xs) (mod_head b (from_le_bytes bs) h.0)
      (ap (le_bytes (length bs)) (div_head b (from_le_bytes bs) h.0)
        ∙ le_bytes-from_le_bytes bs h.1)

from_le_bytes-lt : (bs : List ℕ) → All IsByte bs → from_le_bytes bs < 256 ^ length bs
unfolding from_le_bytes
from_le_bytes-lt [] h = omega arith
from_le_bytes-lt (b ∷ bs) h = omega (arith, from_le_bytes-lt bs h.1, h.0, pow-suc 256 (length bs))

from_le_bytes-append :
    (xs ys : List ℕ)
    → from_le_bytes (xs ++ ys) ≡ from_le_bytes xs + 256 ^ length xs * from_le_bytes ys
unfolding from_le_bytes
from_le_bytes-append [] ys = omega arith
from_le_bytes-append (b ∷ bs) ys = omega (
  arith,
  from_le_bytes-append bs ys,
  ap (λ (t : ℕ). t * from_le_bytes ys) (pow-suc 256 (length bs)),
)

-- Truncation to 64 bits keeps the first eight bytes.
pub from_le_bytes-take :
    (bs : List ℕ)
    → All IsByte bs
    → 8 ≤ length bs
    → from_le_bytes bs % 2 ^ 64 ≡ from_le_bytes (take 8 bs)
from_le_bytes-take bs h long =
    let low : List ℕ = take 8 bs in
    let size : length low ≡ 8 = length-take 8 bs long in
    let fits : from_le_bytes low < 2 ^ 64 =
      subst (λ n. from_le_bytes low < 256 ^ n) size
        (from_le_bytes-lt low (All-take IsByte 8 bs h)) in
    let whole : from_le_bytes bs ≡ from_le_bytes low + 2 ^ 64 * from_le_bytes (drop 8 bs) =
      ap from_le_bytes (sym (take-append-drop 8 bs))
      ∙ from_le_bytes-append low (drop 8 bs)
      ∙ ap (λ n. from_le_bytes low + 256 ^ n * from_le_bytes (drop 8 bs)) size in
    omega arith
