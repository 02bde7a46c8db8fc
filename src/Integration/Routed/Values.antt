-- ===== src/Integration/Routed/Values.antt =====
-- A value query from the dispatcher's handler through an adapter.
use solana_yield_adapter_sta.Prelude.{
  subst, [], ℕ, ⊤, ◌≡◌, ◌∙◌, ap, sym, refl, inl, inr, arith, take, List, ◌∷◌, map, not, ◌&&◌,
  if◌then◌else◌,
}
use solana_yield_adapter_sta.Prelude.Bytes.{
  le_bytes-from_le_bytes, le_bytes-IsByte, le_bytes, from_le_bytes, length-le_bytes,
}
use solana_yield_adapter_sta.Types.{anchor, constraint_mut}
use solana_yield_adapter_sta.Types.Dispatcher.{Adapter}
use solana_yield_adapter_sta.Interface.{
  read_return_u64, set_return_u64, from_u8, is_active, adapter_current_value_discriminator,
}
use solana_yield_adapter_sta.Solana.Accounts.{AccountInfo}
use solana_yield_adapter_sta.Solana.Result.{Result, err, Result-cases}
use solana_yield_adapter_sta.Solana.World.{World, Invoke}
use solana_yield_adapter_sta.Dispatcher.Routing.Values
use solana_yield_adapter_sta.Dispatcher.CurrentValue
use solana_yield_adapter_sta.Dispatcher.State
use solana_yield_adapter_sta.Interface.ReturnData.{take_all-le_bytes}
use solana_yield_adapter_sta.Adapters.Answer.{respond, HasData, IsData}
use solana_yield_adapter_sta.Adapters.Standard.{Standard}
use solana_yield_adapter_sta.Adapters.Venue.{Venue, standard}
use solana_yield_adapter_sta.Integration.Deployment.{IsDeployed}
use solana_yield_adapter_sta.Integration.Routed.Seen.{
  seen, cleared, caller_writable, seen-is_signer,
}

-- What a query answers, once the adapter has admitted the caller: the dispatcher sets the value as
-- its own return data.
abbrev pub answered : Standard → AccountInfo → List AccountInfo → World → Result (⊤ × World)
answered s caller remaining w =
    if s.value_mut && not (caller_writable caller remaining)
    then err (anchor constraint_mut)
    else respond State.id (s.valued caller.key) (s.value_of (map (seen caller remaining) remaining))
        w

-- What the adapter itself leaves.
abbrev left_by : Standard → AccountInfo → List AccountInfo → World → Result (⊤ × World)
left_by s caller remaining w =
    if s.value_mut && not (caller_writable caller remaining)
    then err (anchor constraint_mut)
    else respond s.id (s.valued caller.key) (s.value_of (map (seen caller remaining) remaining))
        (cleared w)

HasData-seen :
    (f : AccountInfo → AccountInfo) (g : (x : AccountInfo) → (f x).borrow ≡ x.borrow)
    (remaining : List AccountInfo)
    → HasData remaining
    → HasData (map f remaining)
HasData-seen f g [] h = tt
HasData-seen f g (x ∷ xs) h = subst IsData (sym (g x)) h

-- Eight bytes that were written are handed on as they are.
pub handed_on : (v : ℕ) → le_bytes 8 (from_le_bytes (take 8 (le_bytes 8 v))) ≡ le_bytes 8 v
handed_on v =
    ap (λ xs. le_bytes 8 (from_le_bytes xs)) (take_all-le_bytes 8 v)
    ∙ ap (λ n. le_bytes n (from_le_bytes (le_bytes 8 v))) (sym (length-le_bytes 8 v))
    ∙ le_bytes-from_le_bytes (le_bytes 8 v) (le_bytes-IsByte 8 v)

module _ (invoke : Invoke) (v : Venue) (a : Adapter)
    (on_chain : IsDeployed invoke a.program_id (standard v)) (active : a.status ≡ 0)
    (caller : AccountInfo) (remaining : List AccountInfo) (w : World)
    (readable : HasData remaining) where
  called :
      invoke
        (Values.asked (record { authority = caller; adapter = a }) remaining)
        (caller ∷ remaining)
        w
      ≡ left_by (standard v) caller remaining w
  called =
      on_chain.runs caller remaining adapter_current_value_discriminator w
      ∙ on_chain.queries (map (seen caller remaining) (caller ∷ remaining)) (cleared w)
      ∙ (standard v).current_value_lem (seen caller remaining caller)
          (map (seen caller remaining) remaining) (cleared w)
          (HasData-seen (seen caller remaining) (λ x. refl) remaining readable)
      ∙ ground (arith, seen-is_signer caller remaining)

  -- A value query through an active adapter, whichever of the five it is, in all its outcomes,
  -- where the adapter is deployed under the registered key and the first remaining account's data
  -- is a byte sequence with a length below 2^64. An adapter that declares its caller `mut` refuses
  -- it with ConstraintMut unless some remaining account passes it as writable. Otherwise the error
  -- of finding the value is the result, or the value becomes the dispatcher's return data in eight
  -- bytes, the adapter's event with it is logged, and nothing else changes.
  pub routed_value :
      CurrentValue.current_value invoke (record { authority = caller; adapter = a }) remaining w
      ≡ answered (standard v) caller remaining w
  unfolding CurrentValue.current_value from_u8 is_active read_return_u64 set_return_u64
  routed_value =
      elim (Result-cases ((standard v).value_of (map (seen caller remaining) remaining))) [
        | inl (value, f) ↦ ground (arith, called, f, handed_on value, length-le_bytes 8 value)
        | inr (x, f) ↦ ground (arith, called, f)
      ]
