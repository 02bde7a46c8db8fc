-- ===== src/Tests/Reading.antt =====
-- Reads of account data and return data.
use solana_yield_adapter_sta.Prelude.{ℕ, List, ◌≡◌, arith, [], ◌∷◌, ◌++◌}
use solana_yield_adapter_sta.Prelude.Int.{negsuc}
use solana_yield_adapter_sta.Prelude.Bytes.{le_bytes}
use solana_yield_adapter_sta.Types.{interface}
use solana_yield_adapter_sta.Types.Interface.{account_data_too_short}
use solana_yield_adapter_sta.Interface.Layout.{read_bytes, read_i128_le}
use solana_yield_adapter_sta.Interface.Reads.{
  read_bytes_outcome, read_i128_le-le_bytes, twos_complement,
}
use solana_yield_adapter_sta.Solana.Result.{ok, err}

abbrev before : List ℕ
before = 1 ∷ 2 ∷ 3 ∷ []

abbrev after : List ℕ
after = 4 ∷ 5 ∷ []

read_bytes_outcome_example : read_bytes before 2 2 ≡ err (interface account_data_too_short)
read_bytes_outcome_example = read_bytes_outcome before 2 2 (ground arith)

read_i128_le-le_bytes_example :
    read_i128_le (before ++ (le_bytes 16 (twos_complement (negsuc 6)) ++ after)) 3 ≡ ok (negsuc 6)
unfolding le_bytes
read_i128_le-le_bytes_example =
    read_i128_le-le_bytes (negsuc 6) before after (ground arith) (ground arith)
