-- ===== src/Solana/Anchor.antt =====
-- The checks that Anchor's account types and attributes stand for, and what Solana and Anchor
-- provide that the repository does not implement. An instruction takes and loads its accounts one
-- after the other, then makes the accounts with `init`, then checks the attributes of the others:
-- for each account its seeds, then `mut`, then `has_one` or `address`.
use solana_yield_adapter_sta.Prelude.{
  ℕ, ⊤, Bool, false, Option, none, some, List, [], ◌∷◌, ◌++◌, ◌≡◌, ◌==◌, ◌&&◌, if◌then◌else◌, leb,
  length,
}
use solana_yield_adapter_sta.Prelude.Int.{ℤ}
use solana_yield_adapter_sta.Types.{
  Error, anchor, account_not_enough_keys, account_not_signer, account_not_initialized,
  account_owned_by_wrong_program, account_discriminator_not_found, account_discriminator_mismatch,
  account_borrow_failed, account_already_in_use, privilege_escalation, constraint_mut,
  constraint_seeds, invalid_program_id,
}
use solana_yield_adapter_sta.Types.Dispatcher.{Registry, registry, Adapter, adapter}
use solana_yield_adapter_sta.Solana.Accounts.{Pubkey, AccountInfo, AccountMeta}
use solana_yield_adapter_sta.Solana.Result.{Result, ok, err}
use solana_yield_adapter_sta.Solana.World.{Action, ◌>>◌, pure, fail, lift, require}

-- Program-derived addresses, the clock, and what the system program answers when the first account
-- pays for the second, which is free, to become one of `n` bytes.
pub record Chain : Type 0 where
  pub find_program_address : List (List ℕ) → Pubkey → Pubkey × ℕ
  pub create_program_address : List (List ℕ) → Pubkey → Option Pubkey
  pub unix_timestamp : Result ℤ
  pub create_account : AccountInfo → AccountInfo → ℕ → Result ⊤

-- The documented relation of the two derivations: the bump that the search returns, as one more
-- seed, derives the address that it returns.
abbrev pub FindsByBump : Chain → Type 0
FindsByBump c =
    (seeds : List (List ℕ)) (program : Pubkey)
    → c.create_program_address (seeds ++ (((c.find_program_address seeds program).1 ∷ []) ∷ []))
        program
      ≡ some (c.find_program_address seeds program).0

-- The closure `|incoming| AccountMeta { … }` that every program maps over its accounts.
abbrev pub to_meta : AccountInfo → AccountMeta
to_meta a = record { pubkey = a.key; is_signer = a.is_signer; is_writable = a.is_writable }

-- `AccountMeta::new_readonly`
abbrev pub new_readonly : Pubkey → Bool → AccountMeta
new_readonly k s = record { pubkey = k; is_signer = s; is_writable = false }

-- The next account of the instruction, and those behind it. Each field of the accounts struct takes
-- one and checks its type before the next one is taken.
abbrev pub next_account : List AccountInfo → Action (AccountInfo × List AccountInfo)
next_account [] = fail (anchor account_not_enough_keys)
next_account (a ∷ rest) = pure (a, rest)

-- `Signer<'info>`
abbrev pub signer : AccountInfo → Action ⊤
signer a = require a.is_signer (anchor account_not_signer)

-- `#[account(mut)]`
abbrev pub mutable : AccountInfo → Action ⊤
mutable a = require a.is_writable (anchor constraint_mut)

-- `Program<'info, System>`: the system program's key is 32 zero bytes.
abbrev pub system : AccountInfo → Action ⊤
system a = require (a.key == 0) (anchor invalid_program_id)

-- What `Account::try_from` of the program `self` reports of an account whose data does not start
-- with one of its discriminators.
unfoldable pub load_error : Pubkey → AccountInfo → Error
load_error self a =
    if (a.owner == 0) && (a.lamports == 0)
    then anchor account_not_initialized
    else (if a.owner == self
        then elim a.borrow [
          | none ↦ anchor account_borrow_failed
          | some bytes ↦
              if leb 8 (length bytes)
              then anchor account_discriminator_mismatch
              else anchor account_discriminator_not_found
        ]
        else anchor account_owned_by_wrong_program)

-- `Account<'info, Adapter>` and `Account<'info, Registry>` of the program `self`. The world holds
-- the accounts of `self` whose data starts with one of the two discriminators, which nothing but
-- its own instructions write. Such an account is read there and not through `borrow`: no data is
-- borrowed when an instruction starts.
abbrev pub load_adapter : Pubkey → AccountInfo → Action Adapter
load_adapter self a w = elim (w.accounts a.key) [
  | some (adapter x) ↦ ok (x, w)
  | some (registry x) ↦ err (anchor account_discriminator_mismatch)
  | none ↦ err (load_error self a)
]

abbrev pub load_registry : Pubkey → AccountInfo → Action Registry
load_registry self a w = elim (w.accounts a.key) [
  | some (registry x) ↦ ok (x, w)
  | some (adapter x) ↦ err (anchor account_discriminator_mismatch)
  | none ↦ err (load_error self a)
]

module _ (c : Chain) (self : Pubkey) where
  -- `seeds = […], bump = …`
  abbrev pub seeds_bump : List (List ℕ) → ℕ → AccountInfo → Action ⊤
  seeds_bump seeds bump a w = elim (c.create_program_address (seeds ++ ((bump ∷ []) ∷ [])) self) [
    | some k ↦ require (a.key == k) (anchor constraint_seeds) w
    | none ↦ err (anchor constraint_seeds)
  ]

  -- `init, payer = …, space = …, seeds = […], bump`: gives the bump that was found. The system
  -- program is invoked before `mut`, which `init` implies, is checked, and the runtime lets it
  -- write to no account that is not writable.
  abbrev pub init : AccountInfo → ℕ → List (List ℕ) → AccountInfo → Action ℕ
  init payer space seeds a w =
      let (k, bump) = c.find_program_address seeds self in
      (do
        require (a.key == k) (anchor constraint_seeds)
        elim (w.accounts a.key) [
          | none ↦ lift (c.create_account payer a space)
          | some x ↦ (do
            require a.is_writable (anchor privilege_escalation)
            fail (anchor account_already_in_use))
        ]
        mutable a
        pure bump)
        w
