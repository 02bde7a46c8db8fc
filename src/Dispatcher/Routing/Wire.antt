-- ===== src/Dispatcher/Routing/Wire.antt =====
-- The bytes that the adapter receives, given what Borsh documents of its encoding.
use solana_yield_adapter_sta.Prelude.{
  ℕ, ◌≡◌, ◌≤◌, ◌<◌, ◌^◌, ◌∙◌, ap, sym, subst, arith, length, take, drop, List, ◌∷◌, ◌++◌,
  length-append, drop-append,
}
use solana_yield_adapter_sta.Prelude.Bytes.{
  le_bytes, from_le_bytes, length-le_bytes, from_le_bytes-le_bytes,
}
use solana_yield_adapter_sta.Interface.{DepositArgs, WithdrawArgs}
use solana_yield_adapter_sta.Interface.ReturnData.{take-le_bytes}
use solana_yield_adapter_sta.Solana.Accounts.{AccountInfo}
use solana_yield_adapter_sta.Solana.Result.{Result, ok, ok-injective}
use solana_yield_adapter_sta.Solana.World.{World, Invoke}
use mathlib.Core.List.{append_assoc}
use solana_yield_adapter_sta.Dispatcher.Deposit.{Deposit, deposit}
use solana_yield_adapter_sta.Dispatcher.Withdraw.{Withdraw, withdraw}
use solana_yield_adapter_sta.Dispatcher.Routing.Deposits
use solana_yield_adapter_sta.Dispatcher.Routing.Withdrawals

-- Borsh writes a `u64` as eight little-endian bytes and a `Vec<u8>` as its length in four, then
-- its bytes.
abbrev pub borsh : ℕ → List ℕ → List ℕ
borsh amount extra_data = le_bytes 8 amount ++ (le_bytes 4 (length extra_data) ++ extra_data)

abbrev pub DepositLayout : (DepositArgs → Result (List ℕ)) → Type 0
DepositLayout to_vec =
    (args : DepositArgs)
    → args.amount < 2 ^ 64
    → length args.extra_data < 2 ^ 32
    → to_vec args ≡ ok (borsh args.amount args.extra_data)

abbrev pub WithdrawLayout : (WithdrawArgs → Result (List ℕ)) → Type 0
WithdrawLayout to_vec =
    (args : WithdrawArgs)
    → args.amount < 2 ^ 64
    → length args.extra_data < 2 ^ 32
    → to_vec args ≡ ok (borsh args.amount args.extra_data)

-- What an adapter finds in the arguments that follow its eight-byte discriminator: their length,
-- the amount, the length prefix and the extra data.
abbrev pub Carries : ℕ → List ℕ → List ℕ → Type 0
Carries amount extra_data bytes =
    (length bytes ≤ 76)
    × (from_le_bytes (take 8 bytes) ≡ amount)
    × (from_le_bytes (take 4 (drop 8 bytes)) ≡ length extra_data)
    × (drop 12 bytes ≡ extra_data)

pub drop-le_bytes : (n v : ℕ) (rest : List ℕ) → drop n (le_bytes n v ++ rest) ≡ rest
drop-le_bytes n v rest =
    ap (λ k. drop k (le_bytes n v ++ rest)) (sym (length-le_bytes n v))
    ∙ drop-append (le_bytes n v) rest

-- The twelve bytes in front of the extra data.
header : ℕ → List ℕ → List ℕ
header amount extra_data = le_bytes 8 amount ++ le_bytes 4 (length extra_data)

length-header : (amount : ℕ) (extra_data : List ℕ) → length (header amount extra_data) ≡ 12
unfolding header
length-header amount extra_data = omega (
  arith,
  length-append (le_bytes 8 amount) (le_bytes 4 (length extra_data)),
  length-le_bytes 8 amount,
  length-le_bytes 4 (length extra_data),
)

-- The amount, the length and the extra data are read back.
pub borsh-reads :
    (amount : ℕ) (extra_data : List ℕ)
    → amount < 2 ^ 64
    → length extra_data < 2 ^ 32
    → (from_le_bytes (take 8 (borsh amount extra_data)) ≡ amount)
      × (from_le_bytes (take 4 (drop 8 (borsh amount extra_data))) ≡ length extra_data)
      × (drop 12 (borsh amount extra_data) ≡ extra_data)
unfolding header
borsh-reads amount extra_data h size =
    let prefixed : List ℕ = le_bytes 4 (length extra_data) ++ extra_data in
    (
      ap from_le_bytes (take-le_bytes 8 amount prefixed) ∙ from_le_bytes-le_bytes 8 amount h,
      ap (λ xs. from_le_bytes (take 4 xs)) (drop-le_bytes 8 amount prefixed)
          ∙ ap from_le_bytes (take-le_bytes 4 (length extra_data) extra_data)
          ∙ from_le_bytes-le_bytes 4 (length extra_data) (omega arith),
      ap (λ n. drop n (borsh amount extra_data)) (sym (length-header amount extra_data))
          ∙ ap (drop (length (header amount extra_data)))
              (sym (append_assoc (le_bytes 8 amount) (le_bytes 4 (length extra_data)) extra_data))
          ∙ drop-append (header amount extra_data) extra_data,
    )

borsh-Carries :
    (amount : ℕ) (extra_data : List ℕ)
    → amount < 2 ^ 64
    → length extra_data ≤ 64
    → Carries amount extra_data (borsh amount extra_data)
borsh-Carries amount extra_data h size =
    let prefixed : List ℕ = le_bytes 4 (length extra_data) ++ extra_data in
    let (amount_read, length_read, data_read) = borsh-reads amount extra_data h (omega arith) in
    (
      omega (
        arith,
        length-append (le_bytes 8 amount) prefixed,
        length-append (le_bytes 4 (length extra_data)) extra_data,
        length-le_bytes 8 amount,
        length-le_bytes 4 (length extra_data),
      ),
      amount_read,
      length_read,
      data_read,
    )

-- A deposit that succeeds, with an amount below 2^64 and an encoding as Borsh documents it, has
-- sent the adapter its arguments whole: behind the discriminator stand at most 76 bytes, from
-- which the amount, the length and the extra data are read back unchanged.
pub deposit-Carries :
    (invoke : Invoke) (to_vec : DepositArgs → Result (List ℕ)) (ctx : Deposit)
    (remaining : List AccountInfo) (args : DepositArgs) (w w' : World)
    → DepositLayout to_vec
    → args.amount < 2 ^ 64
    → deposit invoke to_vec ctx remaining args w ≡ ok (tt, w')
    → (bytes : List ℕ) × (w₁ : World) × (invoke
          (Deposits.sent ctx remaining bytes)
          (ctx.signer ∷ remaining)
          w
        ≡ ok (tt, w₁))
      × Carries args.amount args.extra_data bytes
deposit-Carries invoke to_vec ctx remaining args w w' layout h e =
    let (_, size, bytes, w₁, encoded, called, _) =
      (Deposits.deposit-IsRouted invoke to_vec ctx remaining args w w').0 e in
    let same : ok (borsh args.amount args.extra_data) ≡ ok bytes =
      sym (layout args h (omega arith)) ∙ encoded in
    (
      bytes,
      w₁,
      called,
      subst (Carries args.amount args.extra_data) (ok-injective same)
          (borsh-Carries args.amount args.extra_data h size),
    )

-- A withdrawal that succeeds, with an amount below 2^64 and an encoding as Borsh documents it, has
-- sent the adapter its arguments whole: behind the discriminator stand at most 76 bytes, from
-- which the amount, the length and the extra data are read back unchanged.
pub withdraw-Carries :
    (invoke : Invoke) (to_vec : WithdrawArgs → Result (List ℕ)) (ctx : Withdraw)
    (remaining : List AccountInfo) (args : WithdrawArgs) (w w' : World)
    → WithdrawLayout to_vec
    → args.amount < 2 ^ 64
    → withdraw invoke to_vec ctx remaining args w ≡ ok (tt, w')
    → (bytes : List ℕ) × (w₁ : World) × (invoke
          (Withdrawals.sent ctx remaining bytes)
          (ctx.signer ∷ remaining)
          w
        ≡ ok (tt, w₁))
      × Carries args.amount args.extra_data bytes
withdraw-Carries invoke to_vec ctx remaining args w w' layout h e =
    let (_, size, bytes, w₁, encoded, called, _) =
      (Withdrawals.withdraw-IsRouted invoke to_vec ctx remaining args w w').0 e in
    let same : ok (borsh args.amount args.extra_data) ≡ ok bytes =
      sym (layout args h (omega arith)) ∙ encoded in
    (
      bytes,
      w₁,
      called,
      subst (Carries args.amount args.extra_data) (ok-injective same)
          (borsh-Carries args.amount args.extra_data h size),
    )
