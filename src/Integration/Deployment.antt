-- ===== src/Integration/Deployment.antt =====
-- An adapter program on the chain. Its entry point is what Anchor generates from the `#[program]`
-- module: it selects the instruction by the first eight bytes and deserialises the arguments.
use solana_yield_adapter_sta.Prelude.{ℕ, ⊤, ◌≡◌, ◌<◌, ◌^◌, length, List, ◌++◌}
use solana_yield_adapter_sta.Interface.{
  adapter_deposit_discriminator, adapter_withdraw_discriminator,
  adapter_current_value_discriminator,
}
use solana_yield_adapter_sta.Solana.Accounts.{Pubkey, AccountInfo}
use solana_yield_adapter_sta.Solana.World.{World, Invoke, Action}
use solana_yield_adapter_sta.Dispatcher.Routing.Wire.{borsh}
use solana_yield_adapter_sta.Adapters.Standard.{Standard}
use solana_yield_adapter_sta.Integration.Calls.{Entry, Runs}

-- For the instructions of the program: the runtime runs `entry` as the program, and the entry point
-- runs the adapter's instruction for the discriminator, on the arguments that Borsh encodes behind
-- it.
pub record Deployed (invoke : Invoke) (program : Pubkey)
    (deposit withdraw : List AccountInfo → ℕ → List ℕ → Action ⊤)
    (current_value : List AccountInfo → Action ⊤) : Type 0 where
  pub entry : Entry
  pub runs : Runs invoke program entry
  pub deposits :
      (accounts : List AccountInfo) (amount : ℕ) (extra_data : List ℕ) (w : World)
      → amount < 2 ^ 64
      → length extra_data < 2 ^ 32
      → entry accounts (adapter_deposit_discriminator ++ borsh amount extra_data) w
        ≡ deposit accounts amount extra_data w
  pub withdraws :
      (accounts : List AccountInfo) (amount : ℕ) (extra_data : List ℕ) (w : World)
      → amount < 2 ^ 64
      → length extra_data < 2 ^ 32
      → entry accounts (adapter_withdraw_discriminator ++ borsh amount extra_data) w
        ≡ withdraw accounts amount extra_data w
  pub queries :
      (accounts : List AccountInfo) (w : World)
      → entry accounts adapter_current_value_discriminator w ≡ current_value accounts w

-- A program that is one of the standard's adapters.
abbrev pub IsDeployed : Invoke → Pubkey → Standard → Type 0
IsDeployed invoke program s =
    Deployed invoke program (s.deposit invoke) (s.withdraw invoke) s.current_value
