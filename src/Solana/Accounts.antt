-- ===== src/Solana/Accounts.antt =====
-- Public keys, accounts and instructions as Solana hands them to a program.
use solana_yield_adapter_sta.Prelude.{ℕ, Bool, List, Option}

-- The number that the 32 bytes of a key spell, lowest byte first. `Pubkey::default()` is 0.
abbrev pub Pubkey : Type 0
Pubkey = ℕ

pub record AccountMeta : Type 0 where
  pub pubkey : Pubkey
  pub is_signer : Bool
  pub is_writable : Bool

-- The account as the runtime passes it: `owner` is the program that owns it, and `borrow` what
-- `try_borrow_data` gives, `none` while the data is mutably borrowed.
pub record AccountInfo : Type 0 where
  pub key : Pubkey
  pub is_signer : Bool
  pub is_writable : Bool
  pub owner : Pubkey
  pub lamports : ℕ
  pub borrow : Option (List ℕ)

pub record Instruction : Type 0 where
  pub program_id : Pubkey
  pub accounts : List AccountMeta
  pub bytes : List ℕ
