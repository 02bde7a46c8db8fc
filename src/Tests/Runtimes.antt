-- ===== src/Tests/Runtimes.antt =====
-- Runtimes with an adapter as program 30, and one with the Kamino adapter.
use solana_yield_adapter_sta.Prelude.{
  ℕ, ⊤, ◌≡◌, ◌<◌, ◌^◌, ◌==◌, ◌∙◌, sym, refl, arith, length, List, [], ◌∷◌, map, some, none,
  if◌then◌else◌, take, drop,
}
use mathlib.Core.Path.{ap₂}
use solana_yield_adapter_sta.Prelude.Bytes.{from_le_bytes}
use solana_yield_adapter_sta.Types.{Event}
use solana_yield_adapter_sta.Solana.Accounts.{AccountInfo, Pubkey}
use solana_yield_adapter_sta.Solana.Result.{Result}
use solana_yield_adapter_sta.Solana.World.{World, Invoke, Action}
use solana_yield_adapter_sta.Dispatcher.Routing.Wire.{borsh, borsh-reads}
use solana_yield_adapter_sta.Adapters.Relay.{Request, refuse, send, perform}
use solana_yield_adapter_sta.Adapters.Standard.{Standard, Decision, transfer}
use solana_yield_adapter_sta.Adapters.Venue.{Venue, kamino, standard}
use solana_yield_adapter_sta.Integration.Calls.{Entry, merged}
use solana_yield_adapter_sta.Integration.Deployment.{IsDeployed}
use solana_yield_adapter_sta.Tests.Fixtures.{caller, echoing}

abbrev first : List ℕ → ℕ
first [] = 0
first (b ∷ bs) = b

-- The instruction by the first byte of its discriminator, the amount and the extra data by their
-- places.
abbrev pub served :
    (deposit withdraw : List AccountInfo → ℕ → List ℕ → Action ⊤)
    (current_value : List AccountInfo → Action ⊤)
    → Entry
served deposit withdraw current_value accounts bytes =
    if first bytes == 190
    then deposit accounts (from_le_bytes (take 8 (drop 8 bytes))) (drop 12 (drop 8 bytes))
    else (if first bytes == 121
        then withdraw accounts (from_le_bytes (take 8 (drop 8 bytes))) (drop 12 (drop 8 bytes))
        else current_value accounts)

abbrev pub venue : Venue
venue = kamino (λ bytes. some 42)

abbrev adapter : Standard
adapter = standard venue

abbrev entry : Entry
entry = served (adapter.deposit echoing) (adapter.withdraw echoing) adapter.current_value

-- Program 30 runs the adapter; every other echoes.
abbrev pub run : Entry → Invoke
run entry ix infos w =
    if ix.program_id == 30
    then entry (map (merged ix.accounts) infos) ix.bytes (record w { return_data = none })
    else echoing ix infos w

abbrev pub runtime : Invoke
runtime = run entry

-- The protocol is not program 30, so it is called alike with and without the adapter.
transfer-same :
    (event : Pubkey → ℕ → Event) (decide : Decision) (accounts : List AccountInfo) (amount : ℕ)
    (extra_data : List ℕ) (w : World)
    → transfer echoing adapter.protocol event decide accounts amount extra_data w
      ≡ transfer runtime adapter.protocol event decide accounts amount extra_data w
transfer-same event decide [] amount extra_data w = refl
transfer-same event decide (caller ∷ remaining) amount extra_data w =
    let performed : (r : Request)
        → perform echoing adapter.protocol (event caller.key) remaining r w
          ≡ perform runtime adapter.protocol (event caller.key) remaining r w =
      λ r. elim r [ refuse e ↦ refl | send bytes n ↦ refl ] in
    ground (arith, performed (decide caller.key remaining extra_data amount))

deposit-same :
    (accounts : List AccountInfo) (amount : ℕ) (extra_data : List ℕ) (w : World)
    → adapter.deposit echoing accounts amount extra_data w
      ≡ adapter.deposit runtime accounts amount extra_data w
deposit-same accounts amount extra_data w =
    adapter.deposit_lem echoing accounts amount extra_data w
    ∙ transfer-same adapter.deposited adapter.deposit_decision accounts amount extra_data w
    ∙ sym (adapter.deposit_lem runtime accounts amount extra_data w)

withdraw-same :
    (accounts : List AccountInfo) (amount : ℕ) (extra_data : List ℕ) (w : World)
    → adapter.withdraw echoing accounts amount extra_data w
      ≡ adapter.withdraw runtime accounts amount extra_data w
withdraw-same accounts amount extra_data w =
    adapter.withdraw_lem echoing accounts amount extra_data w
    ∙ transfer-same adapter.withdrawn adapter.withdraw_decision accounts amount extra_data w
    ∙ sym (adapter.withdraw_lem runtime accounts amount extra_data w)

-- The arguments arrive as they were sent.
pub received :
    (f : ℕ → List ℕ → Result (⊤ × World)) (amount : ℕ) (extra_data : List ℕ)
    → amount < 2 ^ 64
    → length extra_data < 2 ^ 32
    → f (from_le_bytes (take 8 (borsh amount extra_data))) (drop 12 (borsh amount extra_data))
      ≡ f amount extra_data
received f amount extra_data h size =
    let (amount_read, _, data_read) = borsh-reads amount extra_data h size in
    ap₂ f amount_read data_read

pub deployed : IsDeployed runtime 30 adapter
deployed = record {
  entry = entry;
  runs = λ from remaining bytes w. refl;
  deposits = λ accounts amount extra_data w h size.
      received (λ n extra. adapter.deposit echoing accounts n extra w) amount extra_data h size
      ∙ deposit-same accounts amount extra_data w;
  withdraws = λ accounts amount extra_data w h size.
      received (λ n extra. adapter.withdraw echoing accounts n extra w) amount extra_data h size
      ∙ withdraw-same accounts amount extra_data w;
  queries = λ accounts w. refl;
}
