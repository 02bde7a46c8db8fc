-- ===== src/Adapters/Venue.antt =====
-- The five adapters that call a protocol, with what the value queries of two of them take from
-- libraries: the reserve of klend_interface, and Anchor's load of a token account.
use solana_yield_adapter_sta.Prelude.{ℕ, List, Option}
use solana_yield_adapter_sta.Solana.Accounts.{AccountInfo}
use solana_yield_adapter_sta.Solana.Result.{Result}
use solana_yield_adapter_sta.Adapters.Standard.{Standard}
use solana_yield_adapter_sta.Adapters.Kamino.Standard as Kamino
use solana_yield_adapter_sta.Adapters.Marginfi.Standard as Marginfi
use solana_yield_adapter_sta.Adapters.Jupiter.Standard as Jupiter
use solana_yield_adapter_sta.Adapters.Drift.Standard as Drift
use solana_yield_adapter_sta.Adapters.Maple.Standard as Maple

pub data Venue : Type 0 where
  kamino : (List ℕ → Option ℕ) → Venue
  marginfi jupiter drift : Venue
  maple : (AccountInfo → Result ℕ) → Venue

abbrev pub standard : Venue → Standard
standard (kamino available_liquidity) = Kamino.standard available_liquidity
standard marginfi = Marginfi.standard
standard jupiter = Jupiter.standard
standard drift = Drift.standard
standard (maple token_amount) = Maple.standard token_amount
