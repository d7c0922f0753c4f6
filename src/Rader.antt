-- ===== src/Rader.antt =====
-- `src/plan/rader_utils.cpp`: primality, primitive roots and the index table of Rader's algorithm.
pub mod Modpow
pub mod Primes
pub mod Primality
pub mod Factors
pub mod Fermat
pub mod Root
pub mod Order
pub mod Table
use flag_fft.Prelude.{
  Error, not_prime_length, no_primitive_root, short_index_table, Result, ok, throws, ℕ, zero, suc,
  ◌+◌, ◌-◌, ◌*◌, ◌/◌, ◌%◌, Bool, true, false, not, ◌&&◌, List, [], ◌∷◌, ◌++◌, ltb, leb, ◌==◌,
  if◌then◌else◌,
}

-- The loop of `modpow`. The exponent halves in each round, so it bounds the number of rounds.
unfoldable pub modpow_loop : (fuel result base exp mod' : ℕ) → ℕ
modpow_loop zero result base exp mod' = result
modpow_loop (suc fuel) result base exp mod' =
    let result' = if exp % 2 == 0 then result else (result * base) % mod' in
    let rest = modpow_loop fuel result' ((base * base) % mod') (exp / 2) mod' in
    if ltb 0 exp then rest else result

unfoldable pub modpow : (base exp mod' : ℕ) → ℕ
modpow base exp mod' = modpow_loop exp 1 (base % mod') exp mod'

-- `while (n % factor == 0) n /= factor`. A division leaves less, so `n` bounds the rounds.
unfoldable pub strip_factor : (fuel factor n : ℕ) → ℕ
strip_factor zero factor n = n
strip_factor (suc fuel) factor n =
    let rest = strip_factor fuel factor (n / factor) in if n % factor == 0 then rest else n

-- The `for` loop of `prime_factors_unique`, the push after it included.
unfoldable pub prime_factors_from : (fuel factor n : ℕ) → List ℕ
prime_factors_from zero factor n = []
prime_factors_from (suc fuel) factor n =
    let skip = prime_factors_from fuel (factor + 1) n in
    let divide = factor ∷ prime_factors_from fuel (factor + 1) (strip_factor n factor n) in
    if leb (factor * factor) n
    then (if n % factor == 0 then divide else skip)
    else (if ltb 1 n then n ∷ [] else [])

unfoldable pub prime_factors_unique : ℕ → List ℕ
prime_factors_unique n = prime_factors_from (n + 1) 2 n

-- The `for` loop of `is_prime_length` over odd divisors.
unfoldable pub no_odd_divisor : (fuel divisor n : ℕ) → Bool
no_odd_divisor zero divisor n = true
no_odd_divisor (suc fuel) divisor n =
    let rest = no_odd_divisor fuel (divisor + 2) n in
    if leb (divisor * divisor) n then (if n % divisor == 0 then false else rest) else true

unfoldable pub is_prime_length : ℕ → Bool
is_prime_length n = if ltb n 2 then false else if n % 2 == 0 then n == 2 else no_odd_divisor n 3 n

-- The inner loop of `find_primitive_root`: no `modpow(root, phi / factor, p)` is 1.
unfoldable pub passes_all : (root phi p : ℕ) → List ℕ → Bool
passes_all root phi p [] = true
passes_all root phi p (factor ∷ factors) =
    if modpow root (phi / factor) p == 1 then false else passes_all root phi p factors

-- The outer loop over `root`, with `p - root` rounds to go.
unfoldable pub search_root : (rounds root p : ℕ) → List ℕ → Result ℕ
search_root zero root p factors = throws no_primitive_root
search_root (suc rounds) root p factors =
    let rest = search_root rounds (root + 1) p factors in
    if passes_all root (p - 1) p factors then ok root else rest

unfoldable pub find_primitive_root : ℕ → Result ℕ
find_primitive_root p =
    if not (is_prime_length p)
    then throws not_prime_length
    else if p == 2
    then ok 1
    else search_root (p - 2) 2 p (prime_factors_unique (p - 1))

-- The loop that fills the table, with the rounds left and the current `value`.
unfoldable pub index_entries : (rounds value p root : ℕ) → List ℕ
index_entries zero value p root = []
index_entries (suc rounds) value p root = value ∷ index_entries rounds ((value * root) % p) p root

unfoldable pub build_rader_index_table : (p root : ℕ) → Result (List ℕ)
build_rader_index_table p root =
    if ltb p 2 then throws short_index_table else ok (index_entries (p - 1) 1 p root)
