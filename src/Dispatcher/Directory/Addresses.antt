-- ===== src/Dispatcher/Directory/Addresses.antt =====
-- The addresses that the seeds of the dispatcher's accounts lead to.
use solana_yield_adapter_sta.Prelude.{
  ℕ, ◌≡◌, ◌≢◌, ◌<◌, ◌^◌, ◌∙◌, ap, sym, arith, length, take, drop, List, [], ◌∷◌, ◌++◌, All,
  length-append,
}
use solana_yield_adapter_sta.Prelude.Bytes.{
  IsByte, le_bytes, from_le_bytes, le_bytes-IsByte, length-le_bytes, from_le_bytes-le_bytes,
}
use solana_yield_adapter_sta.Interface.ReturnData.{take-le_bytes}
use solana_yield_adapter_sta.Solana.Accounts.{Pubkey}
use solana_yield_adapter_sta.Solana.Anchor.{Chain}
use solana_yield_adapter_sta.Dispatcher.State.{
  id, adapter_seeds, registry_seeds, seed_prefix, seed_adapter,
}
use solana_yield_adapter_sta.Dispatcher.Routing.Wire.{drop-le_bytes}

-- The runtime hashes the seeds one behind the other, with nothing between them.
abbrev pub concat : List (List ℕ) → List ℕ
concat [] = []
concat (seed ∷ seeds) = seed ++ concat seeds

-- The hash has no collisions: seeds that lead to one address of the dispatcher are the same bytes.
abbrev pub CollisionFree : Chain → Type 0
CollisionFree c =
    (seeds seeds' : List (List ℕ))
    → All IsByte (concat seeds)
    → All IsByte (concat seeds')
    → (c.find_program_address seeds id).0 ≡ (c.find_program_address seeds' id).0
    → concat seeds ≡ concat seeds'

All-append : (xs ys : List ℕ) → All IsByte xs → All IsByte ys → All IsByte (xs ++ ys)
All-append [] ys h k = k
All-append (x ∷ xs) ys h k = (h.0, All-append xs ys h.1 k)

adapter_seeds-IsByte : (p a : Pubkey) → All IsByte (concat (adapter_seeds p a))
unfolding adapter_seeds
adapter_seeds-IsByte p a = All-append seed_prefix _ (omega arith) (
    All-append (le_bytes 32 p) _ (le_bytes-IsByte 32 p) (
      All-append seed_adapter _ (omega arith)
        (All-append (le_bytes 32 a) [] (le_bytes-IsByte 32 a) tt)))

-- The two keys stand at fixed places of the seeds.
program_in : List ℕ → Pubkey
program_in bytes = from_le_bytes (take 32 (drop 10 bytes))

authority_in : List ℕ → Pubkey
authority_in bytes = from_le_bytes (take 32 (drop 12 (drop 32 (drop 10 bytes))))

program_in-adapter_seeds :
    (p a : Pubkey) → p < 2 ^ 256 → program_in (concat (adapter_seeds p a)) ≡ p
unfolding program_in adapter_seeds
program_in-adapter_seeds p a h =
    ap from_le_bytes (take-le_bytes 32 p _) ∙ from_le_bytes-le_bytes 32 p h

authority_in-adapter_seeds :
    (p a : Pubkey) → a < 2 ^ 256 → authority_in (concat (adapter_seeds p a)) ≡ a
unfolding authority_in adapter_seeds
authority_in-adapter_seeds p a h =
    ap (λ (xs : List ℕ). from_le_bytes (take 32 (drop 12 xs))) (drop-le_bytes 32 p _)
    ∙ ap from_le_bytes (take-le_bytes 32 a [])
    ∙ from_le_bytes-le_bytes 32 a h

length-adapter_seeds : (p a : Pubkey) → length (concat (adapter_seeds p a)) ≡ 86
unfolding adapter_seeds
length-adapter_seeds p a = omega (
  arith,
  length-append (le_bytes 32 p) (seed_adapter ++ (le_bytes 32 a ++ [])),
  length-le_bytes 32 p,
  length-append (le_bytes 32 a) [],
  length-le_bytes 32 a,
)

abbrev pub address : Chain → Pubkey → Pubkey → Pubkey
address c p a = (c.find_program_address (adapter_seeds p a) id).0

module _ (c : Chain) (free : CollisionFree c) where
  -- Where the hash of the seeds has no collisions, the address of an adapter's account determines
  -- its program and its authority: no account can stand for another pair.
  pub address-injective :
      (p a p' a' : Pubkey)
      → p < 2 ^ 256
      → a < 2 ^ 256
      → p' < 2 ^ 256
      → a' < 2 ^ 256
      → address c p a ≡ address c p' a'
      → (p ≡ p') × (a ≡ a')
  address-injective p a p' a' h1 h2 h3 h4 e =
      let bytes : concat (adapter_seeds p a) ≡ concat (adapter_seeds p' a') =
        free (adapter_seeds p a) (adapter_seeds p' a') (adapter_seeds-IsByte p a)
          (adapter_seeds-IsByte p' a') e in
      (
        sym (program_in-adapter_seeds p a h1)
            ∙ ap program_in bytes
            ∙ program_in-adapter_seeds p' a' h3,
        sym (authority_in-adapter_seeds p a h2)
            ∙ ap authority_in bytes
            ∙ authority_in-adapter_seeds p' a' h4,
      )

  -- No adapter stands where the registry does.
  pub address-ne-registry :
      (p a : Pubkey) → address c p a ≢ (c.find_program_address registry_seeds id).0
  address-ne-registry p a e =
      let bytes : concat (adapter_seeds p a) ≡ concat registry_seeds =
        free (adapter_seeds p a) registry_seeds (adapter_seeds-IsByte p a) (omega arith) e in
      absurd (omega (arith, ap length bytes, length-adapter_seeds p a))
