-- ===== src/Solana/World.antt =====
-- What an instruction reads and writes, and the actions of a handler on it. A handler that fails
-- gives no world: the runtime rolls the whole transaction back.
use solana_yield_adapter_sta.Prelude.{
  ℕ, ⊤, Bool, true, false, Option, none, some, List, ◌∷◌, ◌==◌, if◌then◌else◌, leb, length,
  get_elem?, take, drop, ◌-◌,
}
use solana_yield_adapter_sta.Types.{Error, Event, panic}
use solana_yield_adapter_sta.Types.Dispatcher.{DispatcherAccount}
use solana_yield_adapter_sta.Solana.Accounts.{Pubkey, AccountInfo, Instruction}
use solana_yield_adapter_sta.Solana.Result.{Result, ok, err}

-- The dispatcher's accounts by address, the return data with the program that set it, and the
-- events of the transaction, the newest first.
pub record World : Type 0 where
  pub accounts : Pubkey → Option DispatcherAccount
  pub return_data : Option (Pubkey × List ℕ)
  pub log : List Event

abbrev pub Action : Type 0 → Type 0
Action A = World → Result (A × World)

infixl 5 ◌>>=◌ ◌>>◌
abbrev pub ◌>>=◌ : {A B : Type 0} → Action A → (A → Action B) → Action B
◌>>=◌ m f w = elim (m w) [ ok (a, w') ↦ f a w' | err e ↦ err e ]

abbrev pub ◌>>◌ : {B : Type 0} → Action ⊤ → Action B → Action B
m >> k = m >>= λ _. k

abbrev pub pure : {A : Type 0} → A → Action A
pure a w = ok (a, w)

abbrev pub fail : {A : Type 0} → Error → Action A
fail e w = err e

-- A call that does not touch the world, under `?`.
abbrev pub lift : {A : Type 0} → Result A → Action A
lift (ok a) w = ok (a, w)
lift (err e) w = err e

-- `require!`
abbrev pub require : Bool → Error → Action ⊤
require true e w = ok (tt, w)
require false e w = err e

-- `emit!`
abbrev pub emit : Event → Action ⊤
emit e w = ok (tt, record w { log = e ∷ w.log })

-- `set_return_data`, called by the program `self`.
abbrev pub set_return_data : Pubkey → List ℕ → Action ⊤
set_return_data self bytes w = ok (tt, record w { return_data = some (self, bytes) })

abbrev pub update :
    (Pubkey → Option DispatcherAccount)
    → Pubkey
    → DispatcherAccount
    → Pubkey
    → Option DispatcherAccount
update f k a j = if j == k then some a else f j

-- Anchor's `exit` of a mutable account, which writes it back to its address.
abbrev pub store : Pubkey → DispatcherAccount → Action ⊤
store k a w = ok (tt, record w { accounts = update w.accounts k a })

-- `xs[i]`, `&xs[from..]` and `&xs[from..to]`, which panic out of range.
module _ {A : Type 0} where
  abbrev pub index : List A → ℕ → Action A
  index xs i w = elim (get_elem? xs i) [ none ↦ err panic | some x ↦ ok (x, w) ]

  abbrev pub slice_from : List A → ℕ → Action (List A)
  slice_from xs from w = elim (leb from (length xs)) [
    | true ↦ ok (drop from xs, w)
    | false ↦ err panic
  ]

  abbrev pub slice : List A → ℕ → ℕ → Action (List A)
  slice xs from to w = elim (leb to (length xs)) [
    | true ↦ ok (take (to - from) (drop from xs), w)
    | false ↦ err panic
  ]

-- A cross-program invocation: the instruction, and the accounts that the caller passes.
abbrev pub Invoke : Type 0
Invoke = Instruction → List AccountInfo → Action ⊤
