-- ===== src/Planner/Enumerate.antt =====
-- `enumerate_supported_factorizations` of `src/plan/factorization.cpp`, with its memo table.
pub mod Sorting
pub mod Exact
use flag_fft.Prelude.{
  ℕ, zero, suc, ◌/◌, ◌%◌, List, [], ◌∷◌, ◌++◌, map, Option, none, some, Bool, true, false, not, ltb,
  ◌==◌, if◌then◌else◌,
}
use flag_fft.Base.{supported_radices}

-- `std::vector<int64_t>`'s order, which is lexicographic, and its equality.
unfoldable pub lex_le : List ℕ → List ℕ → Bool
lex_le [] ys = true
lex_le (x ∷ xs) [] = false
lex_le (x ∷ xs) (y ∷ ys) = if x == y then lex_le xs ys else ltb x y

unfoldable pub same_list : List ℕ → List ℕ → Bool
same_list [] [] = true
same_list (x ∷ xs) (y ∷ ys) = if x == y then same_list xs ys else false
same_list _ _ = false

-- `std::sort`, as an insertion sort.
unfoldable pub insert_sorted : List ℕ → List (List ℕ) → List (List ℕ)
insert_sorted x [] = x ∷ []
insert_sorted x (y ∷ ys) = if lex_le x y then x ∷ y ∷ ys else y ∷ insert_sorted x ys

unfoldable pub sort : List (List ℕ) → List (List ℕ)
sort [] = []
sort (x ∷ xs) = insert_sorted x (sort xs)

-- `result.erase(std::unique(...), result.end())`
unfoldable pub drop_repeats : List ℕ → List (List ℕ) → List (List ℕ)
drop_repeats x [] = x ∷ []
drop_repeats x (y ∷ ys) = let rest = drop_repeats y ys in if same_list x y then rest else x ∷ rest

unfoldable pub unique : List (List ℕ) → List (List ℕ)
unique [] = []
unique (x ∷ xs) = drop_repeats x xs

-- `factorization_cache_`, the newest entry first.
abbrev pub Cache : Type 0
Cache = List (ℕ × List (List ℕ))

unfoldable pub find : ℕ → Cache → Option (List (List ℕ))
find n [] = none
find n ((m, result) ∷ cache) = if m == n then some result else find n cache

-- The loop over the radices; `recurse` is the recursive call.
unfoldable pub over_radices :
    (Cache → ℕ → List (List ℕ) × Cache) → ℕ → List ℕ → Cache → List (List ℕ) × Cache
over_radices recurse n [] cache = ([], cache)
over_radices recurse n (radix ∷ radices) cache =
    let skipped = over_radices recurse n radices cache in
    let (tails, cache') = recurse cache (n / radix) in
    let split = over_radices recurse n radices cache' in
    if not (n % radix == 0)
    then skipped
    else if n == radix
    then ((radix ∷ []) ∷ skipped.0, skipped.1)
    else (map (λ tail. radix ∷ tail) tails ++ split.0, split.1)

-- A radix is at least 2, so `n` bounds the depth of the recursion.
unfoldable pub enumerate : (fuel : ℕ) → Cache → ℕ → List (List ℕ) × Cache
enumerate zero cache n = ([], cache)
enumerate (suc fuel) cache n = elim (find n cache) [
  | some result ↦ (result, cache)
  | none ↦
      let (found, cache') = over_radices (enumerate fuel) n supported_radices cache in
      let result = unique (sort found) in (result, (n, result) ∷ cache')
]

unfoldable pub enumerate_supported_factorizations : Cache → ℕ → List (List ℕ) × Cache
enumerate_supported_factorizations cache n = enumerate n cache n
