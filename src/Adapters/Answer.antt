-- ===== src/Adapters/Answer.antt =====
-- What a value query of an adapter leaves behind, and reads of eight bytes of account data.
use solana_yield_adapter_sta.Prelude.{
  ⊤, Option, none, [], leb, if◌then◌else◌, ℕ, ◌≡◌, ◌≤◌, ◌<◌, ◌+◌, ◌^◌, ◌%◌, ◌∙◌, ap, sym, arith,
  length, take, drop, List, ◌∷◌, some, All, All-take, All-drop, length-take, length-drop, take-take,
}
use solana_yield_adapter_sta.Prelude.Bytes.{
  IsByte, le_bytes, from_le_bytes, le_bytes-from_le_bytes, from_le_bytes-take,
}
use solana_yield_adapter_sta.Types.{Event, interface, anchor, account_borrow_failed, panic}
use solana_yield_adapter_sta.Types.Interface.{account_data_too_short}
use solana_yield_adapter_sta.Solana.Accounts.{Pubkey, AccountInfo}
use solana_yield_adapter_sta.Solana.Result.{Result, ok, err}
use solana_yield_adapter_sta.Solana.World.{World}
use solana_yield_adapter_sta.Interface.Layout.{read_u64_le, read_u128_le}
use solana_yield_adapter_sta.Interface.Reads.{read_bytes_cases}

-- Return data of the program `self`, and one event more.
abbrev pub answer : Pubkey → List ℕ → Event → World → World
answer self bytes event w = record w { return_data = some (self, bytes); log = event ∷ w.log }

-- The eight bytes at an offset.
abbrev pub word : List ℕ → ℕ → List ℕ
word bytes offset = take 8 (drop offset bytes)

module _ (bytes : List ℕ) (offset : ℕ) (size : length bytes < 2 ^ 64) where
  pub read_u64_le-word :
      offset + 8 ≤ length bytes → read_u64_le bytes offset ≡ ok (from_le_bytes (word bytes offset))
  unfolding read_u64_le
  read_u64_le-word h = rw ((read_bytes_cases bytes offset 8 size).0 h)

  pub read_u64_le_short :
      offset < 2 ^ 32
      → length bytes < offset + 8
      → read_u64_le bytes offset ≡ err (interface account_data_too_short)
  unfolding read_u64_le
  read_u64_le_short k h = rw ((read_bytes_cases bytes offset 8 size).1 h (omega arith))

  pub read_u128_le_short :
      offset < 2 ^ 32
      → length bytes < offset + 16
      → read_u128_le bytes offset ≡ err (interface account_data_too_short)
  unfolding read_u128_le
  read_u128_le_short k h = rw ((read_bytes_cases bytes offset 16 size).1 h (omega arith))

  pub read_u128_le-take :
      offset + 16 ≤ length bytes
      → read_u128_le bytes offset ≡ ok (from_le_bytes (take 16 (drop offset bytes)))
  unfolding read_u128_le
  read_u128_le-take h = rw ((read_bytes_cases bytes offset 16 size).0 h)

-- Eight bytes of account data are what the number that they spell is written as.
pub le_bytes-word :
    (bytes : List ℕ) (offset : ℕ)
    → All IsByte bytes
    → offset + 8 ≤ length bytes
    → le_bytes 8 (from_le_bytes (word bytes offset)) ≡ word bytes offset
le_bytes-word bytes offset h long =
    let long' : 8 ≤ length (drop offset bytes) = omega (arith, length-drop offset bytes) in
    ap (λ n. le_bytes n (from_le_bytes (word bytes offset)))
      (sym (length-take 8 (drop offset bytes) long'))
    ∙ le_bytes-from_le_bytes (word bytes offset)
        (All-take IsByte 8 (drop offset bytes) (All-drop IsByte offset bytes h))

-- The low 64 bits of sixteen bytes are the first eight of them.
pub truncated-word :
    (bytes : List ℕ) (offset : ℕ)
    → All IsByte bytes
    → offset + 16 ≤ length bytes
    → from_le_bytes (take 16 (drop offset bytes)) % 2 ^ 64 ≡ from_le_bytes (word bytes offset)
truncated-word bytes offset h long =
    let long' : 16 ≤ length (drop offset bytes) = omega (arith, length-drop offset bytes) in
    from_le_bytes-take (take 16 (drop offset bytes))
      (All-take IsByte 16 (drop offset bytes) (All-drop IsByte offset bytes h))
      (omega (arith, length-take 16 (drop offset bytes) long'))
    ∙ ap from_le_bytes (take-take 8 16 (drop offset bytes) (omega arith))

-- How a query ends, given the value that was found: it is the return data in eight bytes and the
-- event's value.
abbrev pub respond : Pubkey → (ℕ → Event) → Result ℕ → World → Result (⊤ × World)
respond self event (ok value) w = ok (tt, answer self (le_bytes 8 value) (event value) w)
respond self event (err e) w = err e

-- The eight bytes at an offset of the first account's data, as a number, where `width` bytes have
-- to be there.
abbrev pub observed : ℕ → ℕ → List AccountInfo → Result ℕ
observed offset width [] = err panic
observed offset width (account ∷ rest) = elim account.borrow [
  | none ↦ err (anchor account_borrow_failed)
  | some bytes ↦
      if leb (offset + width) (length bytes)
      then ok (from_le_bytes (word bytes offset))
      else err (interface account_data_too_short)
]

-- The data of the first account is a byte sequence whose length is a `usize`.
abbrev pub IsData : Option (List ℕ) → Type 0
IsData none = ⊤
IsData (some bytes) = (length bytes < 2 ^ 64) × All IsByte bytes

abbrev pub HasData : List AccountInfo → Type 0
HasData [] = ⊤
HasData (account ∷ rest) = IsData account.borrow
