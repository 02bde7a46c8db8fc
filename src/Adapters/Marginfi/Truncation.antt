-- ===== src/Adapters/Marginfi/Truncation.antt =====
-- How much of a MarginFi balance a value query reports
-- (programs/marginfi-adapter/src/instructions/adapter_current_value.rs).
use solana_yield_adapter_sta.Prelude.{
  ℕ, ◌≡◌, ◌<◌, ◌^◌, ◌%◌, arith, length, List, ◌∷◌, ◌++◌, some, subst,
}
use solana_yield_adapter_sta.Prelude.Bytes.{le_bytes}
use solana_yield_adapter_sta.Interface.{set_return_u64}
use solana_yield_adapter_sta.Interface.Layout.{read_u128_le}
use solana_yield_adapter_sta.Interface.Reads.{read_u128_le-le_bytes}
use solana_yield_adapter_sta.Solana.Accounts.{AccountInfo}
use solana_yield_adapter_sta.Solana.Result.{ok}
use solana_yield_adapter_sta.Solana.World.{World}
use solana_yield_adapter_sta.Adapters.Answer.{answer}
use solana_yield_adapter_sta.Adapters.Marginfi.{id}
use solana_yield_adapter_sta.Adapters.Marginfi.CurrentValue.{
  AdapterCurrentValue, adapter_current_value,
}
use solana_yield_adapter_sta.Adapters.Marginfi.Values.{reported}

-- On a MarginFi account whose data holds the 128-bit number `shares` behind its first 40 bytes, and
-- whose length is below 2^64, a value query reports `shares` modulo 2^64, in the return data and in
-- the event: what is above 64 bits is lost without an error.
pub marginfi_value_truncated :
    (ctx : AdapterCurrentValue) (account : AccountInfo) (rest : List AccountInfo) (w : World)
    (shares : ℕ) (before after : List ℕ)
    → account.borrow ≡ some (before ++ (le_bytes 16 shares ++ after))
    → length before ≡ 40
    → shares < 2 ^ 128
    → length (before ++ (le_bytes 16 shares ++ after)) < 2 ^ 64
    → adapter_current_value ctx (account ∷ rest) w
      ≡ ok (
        tt,
        answer id (le_bytes 8 (shares % 2 ^ 64)) (reported ctx.authority.key (shares % 2 ^ 64)) w,
      )
unfolding adapter_current_value set_return_u64
marginfi_value_truncated ctx account rest w shares before after held place small size =
    let bytes : List ℕ = before ++ (le_bytes 16 shares ++ after) in
    let field : read_u128_le bytes 40 ≡ ok shares =
      subst (λ n. read_u128_le bytes n ≡ ok shares) place
        (read_u128_le-le_bytes shares before after small size) in
    ground (arith, field)
