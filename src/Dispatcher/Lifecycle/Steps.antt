-- ===== src/Dispatcher/Lifecycle/Steps.antt =====
-- The worlds that the dispatcher's six instructions reach, with any transactions of other programs
-- between them.
use solana_yield_adapter_sta.Prelude.{ℕ, ◌≡◌, ◌<◌, ◌^◌, List}
use solana_yield_adapter_sta.Interface.{DepositArgs, WithdrawArgs}
use solana_yield_adapter_sta.Solana.Accounts.{AccountInfo, Instruction}
use solana_yield_adapter_sta.Solana.Anchor.{Chain}
use solana_yield_adapter_sta.Solana.Result.{Result, ok}
use solana_yield_adapter_sta.Solana.World.{World, Invoke}
use solana_yield_adapter_sta.Dispatcher.RegistryInit
use solana_yield_adapter_sta.Dispatcher.AdapterInit
use solana_yield_adapter_sta.Dispatcher.AdapterInit.{AdapterInitArgs}
use solana_yield_adapter_sta.Dispatcher.ToggleAdapter
use solana_yield_adapter_sta.Dispatcher.Deposit
use solana_yield_adapter_sta.Dispatcher.Withdraw
use solana_yield_adapter_sta.Dispatcher.CurrentValue

-- What the dispatcher runs on.
pub record Setting : Type 0 where
  pub chain : Chain
  pub invoke : Invoke
  pub deposit_to_vec : DepositArgs → Result (List ℕ)
  pub withdraw_to_vec : WithdrawArgs → Result (List ℕ)

-- Only a program itself writes to its accounts, and an invoked program cannot call back into the
-- dispatcher: the runtime's rules on ownership and reentrancy.
abbrev pub KeepsAccounts : Invoke → Type 0
KeepsAccounts invoke =
    (ix : Instruction) (infos : List AccountInfo) (w w' : World)
    → invoke ix infos w ≡ ok (tt, w')
    → w'.accounts ≡ w.accounts

-- What Borsh makes of the bytes of an instruction: three keys of 32 bytes and a `u8`.
abbrev pub IsDecoded : AdapterInitArgs → Type 0
IsDecoded args =
    (args.authority < 2 ^ 256)
    × (args.program_id < 2 ^ 256)
    × (args.supported_mint < 2 ^ 256)
    × (args.status < 256)

-- `other` is a transaction of other programs, or a new one: the log and the return data are free.
pub data Step (s : Setting) (w w' : World) : Type 0 where
  registry_init :
      (accounts : List AccountInfo)
      → RegistryInit.process s.chain accounts w ≡ ok (tt, w')
      → Step s w w'
  adapter_init :
      (accounts : List AccountInfo) (args : AdapterInitArgs)
      → IsDecoded args
      → AdapterInit.process s.chain accounts args w ≡ ok (tt, w')
      → Step s w w'
  toggle_adapter :
      (accounts : List AccountInfo)
      → ToggleAdapter.process s.chain accounts w ≡ ok (tt, w')
      → Step s w w'
  deposit :
      (accounts : List AccountInfo) (args : DepositArgs)
      → Deposit.process s.invoke s.deposit_to_vec s.chain accounts args w ≡ ok (tt, w')
      → Step s w w'
  withdraw :
      (accounts : List AccountInfo) (args : WithdrawArgs)
      → Withdraw.process s.invoke s.withdraw_to_vec s.chain accounts args w ≡ ok (tt, w')
      → Step s w w'
  current_value :
      (accounts : List AccountInfo)
      → CurrentValue.process s.invoke s.chain accounts w ≡ ok (tt, w')
      → Step s w w'
  other : w'.accounts ≡ w.accounts → Step s w w'

pub data Reach (s : Setting) (w : World) : World → Type 0 where
  here : Reach s w w
  next : {u v : World} → Reach s w u → Step s u v → Reach s w v
