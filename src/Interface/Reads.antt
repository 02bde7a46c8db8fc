-- ===== src/Interface/Reads.antt =====
-- Reads of raw account data (crates/yield-adapter-interface/src/layout.rs).
use solana_yield_adapter_sta.Prelude.{
  leb, ltb, if◌then◌else◌, ℕ, ◌≡◌, ◌≤◌, ◌<◌, ◌^◌, ◌+◌, ◌-◌, ◌++◌, List, ◌∙◌, ap, sym, arith, length,
  take, drop, length-append, take-append, drop-append,
}
use solana_yield_adapter_sta.Prelude.Int.{ℤ, pos, negsuc}
use solana_yield_adapter_sta.Prelude.Bytes.{
  le_bytes, length-le_bytes, from_le_bytes-le_bytes, signed,
}
use solana_yield_adapter_sta.Types.{interface}
use solana_yield_adapter_sta.Types.Interface.{account_data_too_short, offset_overflow}
use solana_yield_adapter_sta.Interface.Layout.{
  read_bytes, read_u64_le, read_u128_le, read_i128_le, read_pubkey,
}
use solana_yield_adapter_sta.Solana.Result.{Result, ok, err}

add_sub : (a b : ℕ) → a + b - a ≡ b
add_sub a b = omega arith

-- Every read ends in one of three ways: the bytes from `offset` to `offset + len` when they lie
-- inside the data, `AccountDataTooShort` when they do not, and `OffsetOverflow` when their end is
-- no `usize`.
pub read_bytes_cases :
    (bytes : List ℕ) (offset len : ℕ)
    → length bytes < 2 ^ 64
    → (offset + len ≤ length bytes
        → read_bytes bytes offset len ≡ ok (take len (drop offset bytes)))
      × (length bytes < offset + len
          → offset + len < 2 ^ 64
          → read_bytes bytes offset len ≡ err (interface account_data_too_short))
      × (2 ^ 64 ≤ offset + len → read_bytes bytes offset len ≡ err (interface offset_overflow))
unfolding read_bytes
read_bytes_cases bytes offset len size = (
  λ h. ground (arith, ap (λ (n : ℕ). take n (drop offset bytes)) (add_sub offset len)),
  λ h k. ground arith,
  λ h. ground arith,
)

-- What a read gives: the bytes from `offset` to `offset + len` inside the data.
abbrev field_at : List ℕ → ℕ → ℕ → Result (List ℕ)
field_at bytes offset len =
    if leb (offset + len) (length bytes)
    then ok (take len (drop offset bytes))
    else (if ltb (offset + len) (2 ^ 64)
        then err (interface account_data_too_short)
        else err (interface offset_overflow))

-- Every read of data whose length is below 2^64, at any offset and of any length: it gives the
-- bytes from `offset` to `offset + len` when they lie inside the data, AccountDataTooShort when
-- they do not, and OffsetOverflow when their end is 2^64 or more.
pub read_bytes_outcome :
    (bytes : List ℕ) (offset len : ℕ)
    → length bytes < 2 ^ 64
    → read_bytes bytes offset len ≡ field_at bytes offset len
unfolding read_bytes
read_bytes_outcome bytes offset len size =
    ground (arith, ap (λ (n : ℕ). take n (drop offset bytes)) (add_sub offset len))

-- A field that stands behind `before` in the data is read back whole.
read_bytes-append :
    (before field after : List ℕ)
    → length (before ++ (field ++ after)) < 2 ^ 64
    → read_bytes (before ++ (field ++ after)) (length before) (length field) ≡ ok field
read_bytes-append before field after size =
    let bytes : List ℕ = before ++ (field ++ after) in
    (read_bytes_cases bytes (length before) (length field) size).0
      (omega (arith, length-append before (field ++ after), length-append field after))
    ∙ ap (λ xs. ok (take (length field) xs)) (drop-append before (field ++ after))
    ∙ ap ok (take-append field after)

-- Where the data holds a number of `n` bytes, those bytes are read.
read_bytes-le_bytes :
    (n v : ℕ) (before after : List ℕ)
    → length (before ++ (le_bytes n v ++ after)) < 2 ^ 64
    → read_bytes (before ++ (le_bytes n v ++ after)) (length before) n ≡ ok (le_bytes n v)
read_bytes-le_bytes n v before after size =
    ap (read_bytes (before ++ (le_bytes n v ++ after)) (length before)) (sym (length-le_bytes n v))
    ∙ read_bytes-append before (le_bytes n v) after size

-- A `u64` that stands anywhere in the data, little-endian, is read back from its offset.
read_u64_le-le_bytes :
    (v : ℕ) (before after : List ℕ)
    → v < 2 ^ 64
    → length (before ++ (le_bytes 8 v ++ after)) < 2 ^ 64
    → read_u64_le (before ++ (le_bytes 8 v ++ after)) (length before) ≡ ok v
unfolding read_u64_le
read_u64_le-le_bytes v before after h size =
    rw (read_bytes-le_bytes 8 v before after size) (ap ok (from_le_bytes-le_bytes 8 v h))

-- A `u128` that stands anywhere in the data, little-endian, is read back from its offset.
pub read_u128_le-le_bytes :
    (v : ℕ) (before after : List ℕ)
    → v < 2 ^ 128
    → length (before ++ (le_bytes 16 v ++ after)) < 2 ^ 64
    → read_u128_le (before ++ (le_bytes 16 v ++ after)) (length before) ≡ ok v
unfolding read_u128_le
read_u128_le-le_bytes v before after h size =
    rw (read_bytes-le_bytes 16 v before after size) (ap ok (from_le_bytes-le_bytes 16 v h))

-- The bits of an `i128`, as an unsigned number.
abbrev pub twos_complement : ℤ → ℕ
twos_complement (pos n) = n
twos_complement (negsuc n) = 2 ^ 128 - n - 1

abbrev pub FitsI128 : ℤ → Type 0
FitsI128 (pos n) = n < 2 ^ 127
FitsI128 (negsuc n) = n < 2 ^ 127

signed-twos_complement : (z : ℤ) → FitsI128 z → signed 128 (twos_complement z) ≡ z
signed-twos_complement (pos n) h = ground arith
signed-twos_complement (negsuc n) h = ground arith

twos_complement-lt : (z : ℤ) → FitsI128 z → twos_complement z < 2 ^ 128
twos_complement-lt (pos n) h = omega arith
twos_complement-lt (negsuc n) h = omega arith

-- An `i128`, from its least value to its greatest, that stands anywhere in data of less than 2^64
-- bytes, little-endian in two's complement, is read back from its offset.
pub read_i128_le-le_bytes :
    (z : ℤ) (before after : List ℕ)
    → FitsI128 z
    → length (before ++ (le_bytes 16 (twos_complement z) ++ after)) < 2 ^ 64
    → read_i128_le (before ++ (le_bytes 16 (twos_complement z) ++ after)) (length before) ≡ ok z
unfolding read_i128_le
read_i128_le-le_bytes z before after h size =
    rw (read_bytes-le_bytes 16 (twos_complement z) before after size) (
      ap (λ n. ok (signed 128 n))
        (from_le_bytes-le_bytes 16 (twos_complement z) (twos_complement-lt z h))
      ∙ ap ok (signed-twos_complement z h))

-- A key that stands anywhere in the data is read back: the refusal of `try_into` is never met.
read_pubkey-le_bytes :
    (k : ℕ) (before after : List ℕ)
    → k < 2 ^ 256
    → length (before ++ (le_bytes 32 k ++ after)) < 2 ^ 64
    → read_pubkey (before ++ (le_bytes 32 k ++ after)) (length before) ≡ ok k
unfolding read_pubkey
read_pubkey-le_bytes k before after h size =
    rw (read_bytes-le_bytes 32 k before after size, length-le_bytes 32 k)
      (ap ok (from_le_bytes-le_bytes 32 k h))
