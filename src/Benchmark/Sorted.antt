-- ===== src/Benchmark/Sorted.antt =====
-- benchmark.py: `sorted` sorts.
use fpga_pi_parallel_nids.Prelude.{
  ℕ, zero, suc, ◌≤◌, ◌<◌, ◌≡◌, refl, inl, inr, Bool-cases, List, [], ◌∷◌, arith, leb, ◌==◌, length,
  get_or, count_of, All,
}
use fpga_pi_parallel_nids.Benchmark.Latency.{insert, sorted}

abbrev pub occurs : ℕ → List ℕ → ℕ
occurs a xs = count_of (λ x. x == a) xs

abbrev pub IsSorted : List ℕ → Type 0
IsSorted [] = Unit {0}
IsSorted (x ∷ xs) = All (λ y. x ≤ y) xs × IsSorted xs

pub All-weaken : (x y : ℕ) (xs : List ℕ) → x ≤ y → All (λ z. y ≤ z) xs → All (λ z. x ≤ z) xs
All-weaken x y [] le all = tt
All-weaken x y (z ∷ zs) le (here, rest) = (omega arith, All-weaken x y zs le rest)

pub All-insert :
    (b x : ℕ) (xs : List ℕ) → b ≤ x → All (λ z. b ≤ z) xs → All (λ z. b ≤ z) (insert x xs)
unfolding insert
All-insert b x [] le all = (le, tt)
All-insert b x (y ∷ ys) le (here, rest) = elim (Bool-cases (leb x y)) [
  | inl small ↦ rw small (le, (here, rest))
  | inr large ↦ rw large (here, All-insert b x ys le rest)
]

pub insert-IsSorted : (x : ℕ) (xs : List ℕ) → IsSorted xs → IsSorted (insert x xs)
unfolding insert
insert-IsSorted x [] s = (tt, tt)
insert-IsSorted x (y ∷ ys) (least, s) = elim (Bool-cases (leb x y)) [
  | inl small ↦
      let le : x ≤ y = ground arith in rw small ((le, All-weaken x y ys le least), (least, s))
  | inr large ↦
      let le : y ≤ x = ground arith in rw large (All-insert y x ys le least, insert-IsSorted x ys s)
]

pub sorted-IsSorted : (xs : List ℕ) → IsSorted (sorted xs)
unfolding sorted
sorted-IsSorted [] = tt
sorted-IsSorted (x ∷ xs) = insert-IsSorted x (sorted xs) (sorted-IsSorted xs)

pub occurs-insert : (a x : ℕ) (xs : List ℕ) → occurs a (insert x xs) ≡ occurs a (x ∷ xs)
unfolding insert
occurs-insert a x [] = refl
occurs-insert a x (y ∷ ys) = elim (Bool-cases (leb x y)) [
  | inl small ↦ rw small
  | inr large ↦ rw large (omega (arith, occurs-insert a x ys))
]

pub occurs-sorted : (a : ℕ) (xs : List ℕ) → occurs a (sorted xs) ≡ occurs a xs
unfolding sorted
occurs-sorted a [] = refl
occurs-sorted a (x ∷ xs) = omega (arith, occurs-insert a x (sorted xs), occurs-sorted a xs)

pub length-insert : (x : ℕ) (xs : List ℕ) → length (insert x xs) ≡ suc (length xs)
unfolding insert
length-insert x [] = refl
length-insert x (y ∷ ys) = ground (arith, length-insert x ys)

pub length-sorted : (xs : List ℕ) → length (sorted xs) ≡ length xs
unfolding sorted
length-sorted [] = refl
length-sorted (x ∷ xs) = omega (arith, length-insert x (sorted xs), length-sorted xs)

-- In a sorted list the entries grow with the index.
pub get_or-All :
    (P : ℕ → Type 0) (xs : List ℕ) (i : ℕ) → All P xs → i < length xs → P (get_or xs i 0)
get_or-All P [] i all lt = absurd (omega arith)
get_or-All P (x ∷ xs) zero (here, rest) lt = here
get_or-All P (x ∷ xs) (suc i) (here, rest) lt = get_or-All P xs i rest (omega arith)

pub get_or_mono :
    (xs : List ℕ) (i j : ℕ) → IsSorted xs → i ≤ j → j < length xs → get_or xs i 0 ≤ get_or xs j 0
get_or_mono [] i j s le lt = absurd (omega arith)
get_or_mono (x ∷ xs) zero zero s le lt = omega arith
get_or_mono (x ∷ xs) zero (suc j) (least, s) le lt =
    get_or-All (λ y. x ≤ y) xs j least (omega arith)
get_or_mono (x ∷ xs) (suc i) zero s le lt = absurd (omega arith)
get_or_mono (x ∷ xs) (suc i) (suc j) (least, s) le lt =
    get_or_mono xs i j s (omega arith) (omega arith)

-- An entry occurs, and what occurs is an entry.
pub occurs-get_or : (xs : List ℕ) (i : ℕ) → i < length xs → 0 < occurs (get_or xs i 0) xs
occurs-get_or [] i lt = absurd (omega arith)
occurs-get_or (x ∷ xs) zero lt = ground arith
occurs-get_or (x ∷ xs) (suc i) lt = omega (arith, occurs-get_or xs i (omega arith))

pub index_of :
    (a : ℕ) (xs : List ℕ) → 0 < occurs a xs → (i : ℕ) × (i < length xs) × (get_or xs i 0 ≡ a)
index_of a [] some_there = absurd (omega arith)
index_of a (x ∷ xs) there = elim (Bool-cases (x == a)) [
  | inl e ↦ (0, omega arith, ground arith)
  | inr ne ↦ let (i, lt, e) = index_of a xs (ground (arith, ne)) in (suc i, omega arith, e)
]
