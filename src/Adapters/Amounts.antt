-- ===== src/Adapters/Amounts.antt =====
-- Where the amount of a deposit or a withdrawal stands in the data for the protocol.
use solana_yield_adapter_sta.Prelude.{
  ℕ, ⊤, ◌≡◌, refl, inl, inr, Bool-cases, ◌==◌, length, take, drop, List, [], ◌∷◌, ◌++◌, zero, suc,
}
use solana_yield_adapter_sta.Prelude.Bytes.{le_bytes}
use solana_yield_adapter_sta.Interface.ReturnData.{take-le_bytes, take_all-le_bytes}
use solana_yield_adapter_sta.Solana.Accounts.{Pubkey, AccountInfo}
use solana_yield_adapter_sta.Adapters.Relay.{Request, refuse, send}
use solana_yield_adapter_sta.Adapters.Standard.{Decision}
use mathlib.Core.Option.{Option}
use solana_yield_adapter_sta.Adapters.Jupiter.Deposits as JupiterDeposits
use solana_yield_adapter_sta.Adapters.Jupiter.Withdrawals as JupiterWithdrawals
use solana_yield_adapter_sta.Adapters.Venue.{
  Venue, kamino, marginfi, jupiter, drift, maple, standard,
}

-- The amount that is reported is the amount that was asked for, and the eight bytes behind the
-- discriminator spell it.
abbrev pub Names : ℕ → Request → Type 0
Names amount (refuse e) = ⊤
Names amount (send bytes n) = (n ≡ amount) × (take 8 (drop 8 bytes) ≡ le_bytes 8 amount)

abbrev pub AmountFirst : Decision → Type 0
AmountFirst decide =
    (caller : Pubkey) (remaining : List AccountInfo) (extra_data : List ℕ) (amount : ℕ)
    → Names amount (decide caller remaining extra_data amount)

-- The venues whose instructions take the amount first. Drift puts a market index before it in one
-- instruction and has one without an amount; what Maple sends holds its own amount.
abbrev pub TakesAmountFirst : Venue → Type 0
TakesAmountFirst (kamino available_liquidity) = ⊤
TakesAmountFirst marginfi = ⊤
TakesAmountFirst jupiter = ⊤
TakesAmountFirst drift = ⊥
TakesAmountFirst (maple token_amount) = ⊥

named :
    (amount : ℕ) (rest : List ℕ)
    → (amount ≡ amount) × (take 8 (le_bytes 8 amount ++ rest) ≡ le_bytes 8 amount)
named amount rest = (refl, take-le_bytes 8 amount rest)

named_alone : (amount : ℕ) → (amount ≡ amount) × (take 8 (le_bytes 8 amount) ≡ le_bytes 8 amount)
named_alone amount = (refl, take_all-le_bytes 8 amount)

kamino_deposit : (l : List ℕ → Option ℕ) → AmountFirst (standard (kamino l)).deposit_decision
kamino_deposit l zero remaining extra_data amount = tt
kamino_deposit l (suc k) remaining [] amount = tt
kamino_deposit l (suc k) remaining (zero ∷ rest) amount = named_alone amount
kamino_deposit l (suc k) remaining (suc zero ∷ rest) amount = named_alone amount
kamino_deposit l (suc k) remaining (suc (suc zero) ∷ rest) amount = named_alone amount
kamino_deposit l (suc k) remaining (suc (suc (suc zero)) ∷ rest) amount = named amount rest
kamino_deposit l (suc k) remaining (suc (suc (suc (suc n))) ∷ rest) amount = tt

kamino_withdraw : (l : List ℕ → Option ℕ) → AmountFirst (standard (kamino l)).withdraw_decision
kamino_withdraw l zero remaining extra_data amount = tt
kamino_withdraw l (suc k) remaining [] amount = tt
kamino_withdraw l (suc k) remaining (zero ∷ rest) amount = named_alone amount
kamino_withdraw l (suc k) remaining (suc zero ∷ rest) amount = named amount rest
kamino_withdraw l (suc k) remaining (suc (suc zero) ∷ rest) amount = named amount rest
kamino_withdraw l (suc k) remaining (suc (suc (suc n)) ∷ rest) amount = tt

marginfi_deposit : AmountFirst (standard marginfi).deposit_decision
marginfi_deposit zero remaining extra_data amount = tt
marginfi_deposit (suc k) remaining [] amount = tt
marginfi_deposit (suc k) remaining (zero ∷ rest) amount = named amount rest
marginfi_deposit (suc k) remaining (suc n ∷ rest) amount = tt

marginfi_withdraw : AmountFirst (standard marginfi).withdraw_decision
marginfi_withdraw zero remaining extra_data amount = tt
marginfi_withdraw (suc k) remaining [] amount = tt
marginfi_withdraw (suc k) remaining (zero ∷ rest) amount = named amount rest
marginfi_withdraw (suc k) remaining (suc n ∷ rest) amount = tt

jupiter_selected_deposit :
    (extra_data : List ℕ) (amount : ℕ)
    → Names amount (JupiterDeposits.selected_request extra_data amount)
jupiter_selected_deposit [] amount = tt
jupiter_selected_deposit (zero ∷ rest) amount = named_alone amount
jupiter_selected_deposit (suc zero ∷ rest) amount = named amount rest
jupiter_selected_deposit (suc (suc n) ∷ rest) amount = tt

jupiter_selected_withdraw :
    (extra_data : List ℕ) (amount : ℕ)
    → Names amount (JupiterWithdrawals.selected_request extra_data amount)
jupiter_selected_withdraw [] amount = tt
jupiter_selected_withdraw (zero ∷ rest) amount = named_alone amount
jupiter_selected_withdraw (suc zero ∷ rest) amount = named amount rest
jupiter_selected_withdraw (suc (suc n) ∷ rest) amount = tt

jupiter_deposit : AmountFirst (standard jupiter).deposit_decision
jupiter_deposit zero remaining extra_data amount = tt
jupiter_deposit (suc k) remaining extra_data amount = elim (Bool-cases (length remaining == 14)) [
  | inl e ↦ rw e (jupiter_selected_deposit extra_data amount)
  | inr e ↦ rw e tt
]

jupiter_withdraw : AmountFirst (standard jupiter).withdraw_decision
jupiter_withdraw zero remaining extra_data amount = tt
jupiter_withdraw (suc k) remaining extra_data amount = elim (Bool-cases (length remaining == 14)) [
  | inl e ↦ rw e (jupiter_selected_withdraw extra_data amount)
  | inr e ↦ rw e tt
]

pub deposit-AmountFirst :
    (v : Venue) → TakesAmountFirst v → AmountFirst (standard v).deposit_decision
deposit-AmountFirst (kamino l) h = kamino_deposit l
deposit-AmountFirst marginfi h = marginfi_deposit
deposit-AmountFirst jupiter h = jupiter_deposit
deposit-AmountFirst drift h = elim h [ ]
deposit-AmountFirst (maple t) h = elim h [ ]

pub withdraw-AmountFirst :
    (v : Venue) → TakesAmountFirst v → AmountFirst (standard v).withdraw_decision
withdraw-AmountFirst (kamino l) h = kamino_withdraw l
withdraw-AmountFirst marginfi h = marginfi_withdraw
withdraw-AmountFirst jupiter h = jupiter_withdraw
withdraw-AmountFirst drift h = elim h [ ]
withdraw-AmountFirst (maple t) h = elim h [ ]
