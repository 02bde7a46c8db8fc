-- ===== src/Tests/Fixtures.antt =====
-- A small chain, a registry with one adapter, and what the programs are called with.
use solana_yield_adapter_sta.Prelude.{
  ℕ, zero, suc, All, ◌≡◌, ◌-◌, ap, refl, arith, true, List, [], ◌∷◌, ◌++◌, some, none, length,
  length-append,
}
use solana_yield_adapter_sta.Prelude.Int.{pos}
use solana_yield_adapter_sta.Prelude.Bytes.{le_bytes, IsByte}
use solana_yield_adapter_sta.Types.Dispatcher.{Adapter, adapter, registry}
use solana_yield_adapter_sta.Types.{toggle, Event}
use solana_yield_adapter_sta.Interface.{DepositArgs, WithdrawArgs}
use solana_yield_adapter_sta.Solana.Accounts.{AccountInfo, Pubkey}
use solana_yield_adapter_sta.Solana.Anchor.{Chain, FindsByBump}
use solana_yield_adapter_sta.Solana.Result.{Result, ok}
use solana_yield_adapter_sta.Solana.World.{World, Invoke, update}
use solana_yield_adapter_sta.Dispatcher.RegistryInit.{initializer_key}
use solana_yield_adapter_sta.Dispatcher.AdapterInit.{AdapterInitArgs}
use solana_yield_adapter_sta.Dispatcher.Routing.Wire.{borsh, DepositLayout, WithdrawLayout}
use solana_yield_adapter_sta.Dispatcher.Lifecycle.Steps.{Setting, KeepsAccounts}

-- The address of seeds is their number: 2 for the registry and 4 for an adapter.
abbrev pub chain : Chain
chain = record {
  find_program_address = λ seeds program. (length seeds, 255);
  create_program_address = λ seeds program. some (length seeds - 1);
  unix_timestamp = ok (pos 5);
  create_account = λ payer info space. ok tt;
}

pub chain-FindsByBump : FindsByBump chain
chain-FindsByBump seeds program =
    let counted : length (seeds ++ ((255 ∷ []) ∷ [])) - 1 ≡ length seeds =
      omega (arith, length-append seeds ((255 ∷ []) ∷ [])) in
    ap some counted

-- A program that accepts every instruction and answers 77.
abbrev pub accepting : Invoke
accepting ix infos w = ok (tt, record w { return_data = some (ix.program_id, le_bytes 8 77) })

pub accepting-KeepsAccounts : KeepsAccounts accepting
accepting-KeepsAccounts ix infos w w' h = cc h

abbrev pub deposit_to_vec : DepositArgs → Result (List ℕ)
deposit_to_vec args = ok (borsh args.amount args.extra_data)

abbrev pub withdraw_to_vec : WithdrawArgs → Result (List ℕ)
withdraw_to_vec args = ok (borsh args.amount args.extra_data)

pub deposit_to_vec-DepositLayout : DepositLayout deposit_to_vec
deposit_to_vec-DepositLayout args h k = refl

pub withdraw_to_vec-WithdrawLayout : WithdrawLayout withdraw_to_vec
withdraw_to_vec-WithdrawLayout args h k = refl

abbrev pub setting : Setting
setting = record {
  chain = chain;
  invoke = accepting;
  deposit_to_vec = deposit_to_vec;
  withdraw_to_vec = withdraw_to_vec;
}

abbrev pub account : Pubkey → AccountInfo
account k = record {
  key = k;
  is_signer = true;
  is_writable = true;
  owner = 0;
  lamports = 0;
  borrow = none;
}

abbrev pub initializer : AccountInfo
initializer = account initializer_key

abbrev pub caller : AccountInfo
caller = account 9

-- The adapter's account and the registry's.
abbrev pub info : AccountInfo
info = account 4

abbrev pub registry_info : AccountInfo
registry_info = account 2

abbrev pub system_program : AccountInfo
system_program = account 0

-- An account of the protocol.
abbrev pub vault : AccountInfo
vault = account 20

abbrev pub init_args : AdapterInitArgs
init_args = record { authority = 9; program_id = 30; supported_mint = 40; status = 0 }

abbrev pub active_entry : Adapter
active_entry = record {
  authority = 9;
  program_id = 30;
  supported_mint = 40;
  status = 0;
  registered_at = pos 5;
  bump = 255;
}

abbrev pub deposit_args : DepositArgs
deposit_args = record { amount = 1000; extra_data = 3 ∷ 8 ∷ [] }

abbrev pub withdraw_args : WithdrawArgs
withdraw_args = record { amount = 600; extra_data = 2 ∷ 8 ∷ [] }

-- Before anything, with the registry, with the adapter, and with the adapter paused.
abbrev pub empty_world : World
empty_world = record { accounts = λ k. none; return_data = none; log = [] }

abbrev pub founded_world : World
founded_world = record empty_world {
  accounts =
      update empty_world.accounts 2
        (registry (record { initializer = initializer_key; bump = 255 }));
}

abbrev pub registered_world : World
registered_world = record founded_world {
  accounts = update founded_world.accounts 4 (adapter active_entry);
}

abbrev pub paused_world : World
paused_world = record registered_world {
  accounts = update registered_world.accounts 4 (adapter (record active_entry { status = 1 }));
  log =
      toggle (record { authority = 9; adapter = 4; program_id = 30; status = 1 })
      ∷ registered_world.log;
}

-- A program that accepts every instruction and hands its data back.
abbrev pub echoing : Invoke
echoing ix infos w = ok (tt, record w { return_data = some (ix.program_id, ix.bytes) })

-- What a relayed instruction leaves there.
abbrev pub relayed : Pubkey → List ℕ → Event → World
relayed protocol bytes event = record registered_world {
  return_data = some (protocol, bytes);
  log = event ∷ [];
}

abbrev pub copies : ℕ → AccountInfo → List AccountInfo
copies zero a = []
copies (suc n) a = a ∷ copies n a

-- An account with some data.
abbrev pub holding : List ℕ → AccountInfo
holding bytes = record vault { borrow = some bytes }

abbrev pub zeros : ℕ → List ℕ
zeros zero = []
zeros (suc n) = 0 ∷ zeros n

pub zeros-IsByte : (n : ℕ) → All IsByte (zeros n)
zeros-IsByte zero = tt
zeros-IsByte (suc n) = (ground arith, zeros-IsByte n)
