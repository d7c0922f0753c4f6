-- ===== src/Tests/Rader.antt =====
-- Rader's index table for the primes 7 and 17, and the helpers it is built from.
use flag_fft.Prelude.{
  ℕ, ◌-◌, ◌^◌, ◌%◌, ◌≤◌, ◌<◌, List, [], ◌∷◌, ◌≡◌, ◌≢◌, ◌↔◌, refl, true, some, ok, throws, In,
  Distinct, length, get_elem?, not_prime_length, arith,
}
use flag_fft.Rader.{
  modpow, prime_factors_unique, is_prime_length, find_primitive_root, build_rader_index_table,
  modpow_loop, strip_factor, prime_factors_from, no_odd_divisor, passes_all, search_root,
  index_entries,
}
use flag_fft.Rader.Modpow.{modpow_lem}
use flag_fft.Rader.Primes.{IsPrime}
use flag_fft.Rader.Primality.{is_prime_length_iff}
use flag_fft.Rader.Factors.{prime_factors_unique_iff}
use flag_fft.Rader.Root.{IsRoot, find_primitive_root-IsRoot, find_primitive_root-not_prime}
use flag_fft.Rader.Order.{find_primitive_root-order}
use flag_fft.Rader.Table.{build_rader_index_table-powers, build_rader_index_table-permutes}

root_of_7 : find_primitive_root 7 ≡ ok 3
unfolding find_primitive_root is_prime_length no_odd_divisor search_root passes_all
    prime_factors_unique prime_factors_from modpow modpow_loop strip_factor
root_of_7 = refl

table_of_7 : build_rader_index_table 7 3 ≡ ok (1 ∷ 3 ∷ 2 ∷ 6 ∷ 4 ∷ 5 ∷ [])
unfolding build_rader_index_table index_entries
table_of_7 = refl

modpow_lem_example : modpow 3 5 7 ≡ (3 ^ 5) % 7
modpow_lem_example = modpow_lem 3 5 7 (omega arith)

is_prime_length_iff_example : (is_prime_length 17 ≡ true) ↔ IsPrime 17
is_prime_length_iff_example = is_prime_length_iff 17

prime_factors_unique_iff_example : In 3 (prime_factors_unique 12) ↔ (IsPrime 3 × (12 % 3 ≡ 0))
prime_factors_unique_iff_example = prime_factors_unique_iff 12 3 (omega arith)

find_primitive_root-IsRoot_example : IsPrime 7 × IsRoot 7 3
find_primitive_root-IsRoot_example = find_primitive_root-IsRoot 7 3 root_of_7

find_primitive_root-not_prime_example :
    (find_primitive_root 9 ≡ throws not_prime_length) ↔ (¬ IsPrime 9)
find_primitive_root-not_prime_example = find_primitive_root-not_prime 9

find_primitive_root-order_example : (3 ^ 4) % 7 ≢ 1
find_primitive_root-order_example =
    find_primitive_root-order 7 3 4 root_of_7 (omega arith) (omega arith)

abbrev table_7 : List ℕ
table_7 = 1 ∷ 3 ∷ 2 ∷ 6 ∷ 4 ∷ 5 ∷ []

build_rader_index_table-powers_example :
    (length table_7 ≡ 7 - 1) × ((i : ℕ) → i < 7 - 1 → get_elem? table_7 i ≡ some ((3 ^ i) % 7))
build_rader_index_table-powers_example = build_rader_index_table-powers 7 3 table_7 table_of_7

build_rader_index_table-permutes_example :
    (table : List ℕ) × (build_rader_index_table 7 3 ≡ ok table)
    × Distinct table
    × ((v : ℕ) → In v table → (1 ≤ v) × (v < 7))
    × ((v : ℕ) → 1 ≤ v → v < 7 → In v table)
build_rader_index_table-permutes_example = build_rader_index_table-permutes 7 3 root_of_7
