-- ===== src/Adapters/Relay.antt =====
-- What an adapter's deposit or withdrawal comes to once its data is built: the protocol is invoked
-- with the remaining accounts under their own flags, and an event is logged if it accepts.
use solana_yield_adapter_sta.Prelude.{⊤, ℕ, List, ◌∷◌, map}
use solana_yield_adapter_sta.Types.{Event, Error}
use solana_yield_adapter_sta.Solana.Accounts.{Pubkey, AccountInfo}
use solana_yield_adapter_sta.Solana.Anchor.{to_meta}
use solana_yield_adapter_sta.Solana.Result.{ok, err}
use solana_yield_adapter_sta.Solana.World.{Action, Invoke}

abbrev pub relay : Invoke → Pubkey → List AccountInfo → List ℕ → Event → Action ⊤
relay invoke protocol remaining bytes event w =
    elim (invoke (record { program_id = protocol; accounts = map to_meta remaining; bytes = bytes })
      remaining w) [ ok (_, w₁) ↦ ok (tt, record w₁ { log = event ∷ w₁.log }) | err e ↦ err e ]

-- What an adapter makes of a call: a refusal, or data for the protocol and the amount to report.
pub data Request : Type 0 where
  refuse : Error → Request
  send : List ℕ → ℕ → Request

abbrev pub perform : Invoke → Pubkey → (ℕ → Event) → List AccountInfo → Request → Action ⊤
perform invoke protocol event remaining (refuse e) w = err e
perform invoke protocol event remaining (send bytes amount) w =
    relay invoke protocol remaining bytes (event amount) w
