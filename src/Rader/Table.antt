-- ===== src/Rader/Table.antt =====
-- The index table of Rader's algorithm and the powers of its root.
use native.Mathlib.Nat.{mul-one, mod-lt, mod-eq_of_lt, pow-zero, pow-suc}
use flag_fft.Prelude.{
  ℕ, zero, suc, ◌+◌, ◌-◌, ◌*◌, ◌%◌, ◌^◌, ◌<◌, ◌≤◌, ◌≡◌, ◌≢◌, refl, sym, ap, subst, ◌∙◌, inl, inr,
  some, arith, List, length, get_elem?, In, Distinct, Within, In-of_full, ok, mod-mul-mod, pow-add,
}
use flag_fft.Rader.{index_entries, build_rader_index_table, find_primitive_root}
use flag_fft.Rader.Primes.{IsPrime, pow-not_divisible}
use flag_fft.Rader.Root.{IsRoot, find_primitive_root-IsRoot}
use flag_fft.Rader.Order.{find_primitive_root-order}
use flag_fft.Rader.Fermat.{mod_cancel}

next_power : (p r k : ℕ) → ((r ^ k) % p * r) % p ≡ (r ^ suc k) % p
next_power p r k = mod-mul-mod (r ^ k) r p ∙ ap (λ t. t % p) (sym (pow-suc r k))

length-index_entries : (n v p r : ℕ) → length (index_entries n v p r) ≡ n
unfolding index_entries
length-index_entries zero v p r = refl
length-index_entries (suc n) v p r = ap suc (length-index_entries n _ p r)

-- The entry `i` places after the power `k` is the power `k + i`.
entry_at :
    (n k p r i : ℕ)
    → i < n
    → get_elem? (index_entries n ((r ^ k) % p) p r) i ≡ some ((r ^ (k + i)) % p)
unfolding index_entries
entry_at zero k p r i h = absurd (omega arith)
entry_at (suc n) k p r zero h = ap (λ t. some ((r ^ t) % p)) (omega arith)
entry_at (suc n) k p r (suc i) h =
    ap (λ t. get_elem? (index_entries n t p r) i) (next_power p r k)
    ∙ entry_at n (suc k) p r i (omega arith)
    ∙ ap (λ t. some ((r ^ t) % p)) (omega arith)

In-index_entries :
    (n k p r x : ℕ)
    → In x (index_entries n ((r ^ k) % p) p r)
    → (j : ℕ) × (k ≤ j) × (j < k + n) × (x ≡ (r ^ j) % p)
unfolding index_entries
In-index_entries zero k p r x m = absurd m
In-index_entries (suc n) k p r x (inl e) = (k, omega arith, omega arith, e)
In-index_entries (suc n) k p r x (inr m) =
    let (j, lo, hi, e) =
      In-index_entries n (suc k) p r x
        (subst (λ t. In x (index_entries n t p r)) (next_power p r k) m) in
    (j, omega arith, omega arith, e)

module _ (p r : ℕ) (found : find_primitive_root p ≡ ok r) where
  prime : IsPrime p
  prime = (find_primitive_root-IsRoot p r found).0

  root : IsRoot p r
  root = (find_primitive_root-IsRoot p r found).1

  power_nonzero : (k : ℕ) → (r ^ k) % p ≢ 0
  power_nonzero k =
      pow-not_divisible p r k prime (omega (arith, mod-eq_of_lt root.below, root.positive))

  -- Two powers less than p - 1 apart differ.
  powers_apart : (k j : ℕ) → k < j → j < k + (p - 1) → (r ^ k) % p ≢ (r ^ j) % p
  powers_apart k j lt hi e =
      find_primitive_root-order p r (j - k) found (omega arith) (omega arith) (
        sym (mod_cancel p (r ^ k) 1 (r ^ (j - k)) prime (power_nonzero k) same)
        ∙ mod-eq_of_lt prime.0)
    where
      same : (r ^ k * 1) % p ≡ (r ^ k * r ^ (j - k)) % p
      same =
          ap (λ t. t % p) (mul-one (r ^ k))
          ∙ e
          ∙ ap (λ t. t % p) (ap (λ t. r ^ t) (omega arith) ∙ pow-add r k (j - k))

  entries-Distinct : (n k : ℕ) → n ≤ p - 1 → Distinct (index_entries n ((r ^ k) % p) p r)
  unfolding index_entries
  entries-Distinct zero k h = tt
  entries-Distinct (suc n) k h = (
    λ m. apart (
        In-index_entries n (suc k) p r ((r ^ k) % p)
          (subst (λ t. In ((r ^ k) % p) (index_entries n t p r)) (next_power p r k) m)),
    subst (λ t. Distinct (index_entries n t p r)) (sym (next_power p r k))
        (entries-Distinct n (suc k) (omega arith)),
  )
    where
      apart : ¬ ((j : ℕ) × (suc k ≤ j) × (j < suc k + n) × ((r ^ k) % p ≡ (r ^ j) % p))
      apart (j, lo, hi, e) = powers_apart k j lo (omega arith) e

  entries-Within : (n k : ℕ) → Within (p - 1) (index_entries n ((r ^ k) % p) p r)
  entries-Within n k x m =
      let (j, lo, hi, e) = In-index_entries n k p r x m in
      (
        omega (arith, e, power_nonzero j),
        omega (arith, e, mod-lt (r ^ j) {m = p} (omega (arith, prime.0))),
      )

-- The first entry is the zeroth power.
start : (p r n : ℕ) → 2 ≤ p → index_entries n 1 p r ≡ index_entries n ((r ^ 0) % p) p r
start p r n h =
    ap (λ t. index_entries n t p r) (sym (ap (λ t. t % p) (pow-zero r) ∙ mod-eq_of_lt h))

-- A table that is built has p - 1 entries, and entry `i` is the i-th power of the root modulo `p`.
pub build_rader_index_table-powers :
    (p r : ℕ) (table : List ℕ)
    → build_rader_index_table p r ≡ ok table
    → (length table ≡ p - 1) × ((i : ℕ) → i < p - 1 → get_elem? table i ≡ some ((r ^ i) % p))
unfolding build_rader_index_table
build_rader_index_table-powers p r table h =
    let big : 2 ≤ p = ground arith in
    let e : index_entries (p - 1) 1 p r ≡ table = ground arith in
    subst (λ t. (length t ≡ p - 1) × ((i : ℕ) → i < p - 1 → get_elem? t i ≡ some ((r ^ i) % p)))
      (sym (start p r (p - 1) big) ∙ e)
      (
        length-index_entries (p - 1) _ p r,
        λ i lt. entry_at (p - 1) 0 p r i lt ∙ ap (λ t. some ((r ^ t) % p)) (omega arith),
      )

-- With the root that `find_primitive_root` returns, the table is built, has no repetition, and its
-- entries are exactly the numbers from 1 to p - 1.
pub build_rader_index_table-permutes :
    (p r : ℕ)
    → find_primitive_root p ≡ ok r
    → (table : List ℕ) × (build_rader_index_table p r ≡ ok table)
      × Distinct table
      × ((v : ℕ) → In v table → (1 ≤ v) × (v < p))
      × ((v : ℕ) → 1 ≤ v → v < p → In v table)
unfolding build_rader_index_table
build_rader_index_table-permutes p r found =
    let big = (prime p r found).0 in
    let e = start p r (p - 1) big in
    let distinct = entries-Distinct p r found (p - 1) 0 (omega arith) in
    let within = entries-Within p r found (p - 1) 0 in
    (
      index_entries (p - 1) 1 p r,
      ground arith,
      subst Distinct (sym e) distinct,
      λ v m. omega (arith, within v (subst (λ t. In v t) e m)),
      λ v lo hi.
          subst (λ t. In v t) (sym e)
            (In-of_full (p - 1) _ distinct within (length-index_entries (p - 1) _ p r) v lo
              (omega arith)),
    )
