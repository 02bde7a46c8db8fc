-- ===== src/Integration/Routed/Seen.antt =====
-- What an adapter sees of a routed call, and the transfer that it makes.
use solana_yield_adapter_sta.Prelude.{
  ℕ, ⊤, ◌≡◌, arith, Bool, true, List, ◌∷◌, none, map, if◌then◌else◌,
}
use solana_yield_adapter_sta.Types.{anchor, constraint_mut}
use solana_yield_adapter_sta.Solana.Accounts.{AccountInfo}
use solana_yield_adapter_sta.Solana.Anchor.{to_meta}
use solana_yield_adapter_sta.Solana.Result.{Result, err}
use solana_yield_adapter_sta.Solana.World.{World, Invoke}
use solana_yield_adapter_sta.Adapters.Relay.{perform}
use solana_yield_adapter_sta.Adapters.Standard.{Standard, transfer}
use solana_yield_adapter_sta.Integration.Calls.{grants, merged, metas_of}

module _ (caller : AccountInfo) (remaining : List AccountInfo) where
  -- The accounts as the adapter sees them, and whether the caller is writable there.
  abbrev pub seen : AccountInfo → AccountInfo
  seen = merged (metas_of caller remaining)

  abbrev pub caller_writable : Bool
  caller_writable = grants (λ m. m.is_writable) caller.key (map to_meta remaining)

  pub seen-is_signer : (seen caller).is_signer ≡ true
  seen-is_signer = ground arith

  seen-is_writable : (seen caller).is_writable ≡ caller_writable
  seen-is_writable = ground arith

abbrev pub cleared : World → World
cleared w = record w { return_data = none }

module _ (invoke : Invoke) (s : Standard) (caller : AccountInfo) (remaining : List AccountInfo)
    (amount : ℕ) (extra_data : List ℕ) (w : World) where
  -- The transfer that the adapter makes, once it has admitted the caller.
  abbrev pub deposited : Result (⊤ × World)
  deposited =
      if caller_writable caller remaining
      then perform invoke s.protocol (s.deposited caller.key)
          (map (seen caller remaining) remaining)
          (s.deposit_decision caller.key (map (seen caller remaining) remaining) extra_data amount)
          (cleared w)
      else err (anchor constraint_mut)

  abbrev pub withdrawn : Result (⊤ × World)
  withdrawn =
      if caller_writable caller remaining
      then perform invoke s.protocol (s.withdrawn caller.key)
          (map (seen caller remaining) remaining)
          (s.withdraw_decision caller.key (map (seen caller remaining) remaining) extra_data amount)
          (cleared w)
      else err (anchor constraint_mut)

  pub transfer-deposited :
      transfer invoke s.protocol s.deposited s.deposit_decision
        (map (seen caller remaining) (caller ∷ remaining))
        amount
        extra_data
        (cleared w)
      ≡ deposited
  transfer-deposited = ground (arith, seen-is_signer caller remaining)

  pub transfer-withdrawn :
      transfer invoke s.protocol s.withdrawn s.withdraw_decision
        (map (seen caller remaining) (caller ∷ remaining))
        amount
        extra_data
        (cleared w)
      ≡ withdrawn
  transfer-withdrawn = ground (arith, seen-is_signer caller remaining)
