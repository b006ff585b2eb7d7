-- ===== src/Benchmark/Counts.antt =====
-- benchmark.py: the counts of a workload, which shuffling leaves as they are.
use mathlib.Core.Logic.{∥∥₁_elim}
use mathlib.Core.List.{Perm, Permᴰ}
use native.Mathlib.Nat.{ℕ_set}
use fpga_pi_parallel_nids.Prelude.{
  ◌≤◌, ◌≡◌, refl, ap, ◌∙◌, inl, inr, Bool, true, false, Bool-cases, ◌||◌, List, [], ◌∷◌, Result, ok,
  raise, arith, ◌==◌, length, count_of, All,
}
use fpga_pi_parallel_nids.Prelude.Bytes.{Bytes}
use fpga_pi_parallel_nids.Bloom.{BloomFilter, member}
use fpga_pi_parallel_nids.Classifier.{Header, parse}

count_of-Permᴰ :
    (test : Bytes → Bool) {xs ys : List Bytes} → Permᴰ xs ys → count_of test xs ≡ count_of test ys
count_of-Permᴰ test Permᴰ.nil = refl
count_of-Permᴰ test (Permᴰ.cons e p) = ground (arith, ap test e, count_of-Permᴰ test p)
count_of-Permᴰ test (Permᴰ.swap e f) = ground (arith, ap test e, ap test f)
count_of-Permᴰ test (Permᴰ.trans p q) = count_of-Permᴰ test p ∙ count_of-Permᴰ test q

pub count_of-Perm :
    (test : Bytes → Bool) {xs ys : List Bytes} → Perm xs ys → count_of test xs ≡ count_of test ys
count_of-Perm test p = ∥∥₁_elim p (ℕ_set _ _) (count_of-Permᴰ test)

-- Whether one of the addresses of a parsed header is in the filter.
abbrev pub is_hit : BloomFilter → Result Header → Bool
is_hit bloom (ok h) = member bloom h.src_ip || member bloom h.dst_ip
is_hit bloom (raise e) = false

abbrev pub touches : BloomFilter → Bytes → Bool
touches bloom header = is_hit bloom (parse header)

abbrev pub is_full : Bytes → Bool
is_full header = length header == 32

count_of-le : {A : Type 0} (test : A → Bool) (xs : List A) → count_of test xs ≤ length xs
count_of-le test [] = omega arith
count_of-le test (x ∷ xs) = ground (arith, count_of-le test xs)

-- When every header passes the test of its length, each has it.
pub all_full :
    (headers : List Bytes)
    → count_of is_full headers ≡ length headers
    → All (λ h. length h ≡ 32) headers
all_full [] e = tt
all_full (h ∷ headers) e = elim (Bool-cases (length h == 32)) [
  | inl full ↦ (ground arith, all_full headers (ground (arith, full)))
  | inr short ↦ absurd (ground (arith, short, count_of-le is_full headers))
]

pub count_of_all : (xs : List Bytes) → count_of (λ x. true) xs ≡ length xs
count_of_all [] = refl
count_of_all (x ∷ xs) = omega (arith, count_of_all xs)
