-- ===== src/Solana/Result.antt =====
-- Rust's `Result` with the `?` operator as the bind of a `do` block.
use solana_yield_adapter_sta.Prelude.{
  ◌≡◌, refl, ◌⊎◌, inl, inr, ⊤, Bool, true, false, Option, none, some,
}
use solana_yield_adapter_sta.Types.{Error}

pub data Result {ℓ} (A : Type ℓ) : Type ℓ where
  ok : A → Result A
  err : Error → Result A

infixl 5 ◌>>=◌ ◌>>◌
abbrev pub ◌>>=◌ {ℓ κ} : {A : Type ℓ} {B : Type κ} → Result A → (A → Result B) → Result B
ok a >>= f = f a
err e >>= f = err e

abbrev pub ◌>>◌ {ℓ} : {B : Type ℓ} → Result ⊤ → Result B → Result B
m >> k = m >>= λ _. k

-- `require!`
abbrev pub require : Bool → Error → Result ⊤
require true e = ok tt
require false e = err e

-- `ok_or`
abbrev pub ok_or {ℓ} : {A : Type ℓ} → Option A → Error → Result A
ok_or none e = err e
ok_or (some a) e = ok a

-- To split on a computed result and keep the equation.
pub Result-cases {ℓ} :
    {A : Type ℓ} (r : Result A) → ((a : A) × (r ≡ ok a)) ⊎ ((e : Error) × (r ≡ err e))
Result-cases (ok a) = inl (a, refl)
Result-cases (err e) = inr (e, refl)

pub ok-injective {ℓ} : {A : Type ℓ} {a b : A} → ok a ≡ ok b → a ≡ b
ok-injective h = cc
