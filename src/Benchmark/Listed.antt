-- ===== src/Benchmark/Listed.antt =====
-- benchmark.py: the listed addresses, and the filter of them.
use mathlib.Core.Path.{subst}
use fpga_pi_parallel_nids.Prelude.{
  ℕ, ◌^◌, ◌<◌, ◌≡◌, refl, sym, inl, inr, true, Bool-cases, List, [], ◌∷◌, Result, ok, raise, ◌>>=◌,
  arith, ◌==◌, All, Result-cases,
}
use fpga_pi_parallel_nids.Prelude.Bytes.{Bytes, IsByte, from_bytes-lt}
use fpga_pi_parallel_nids.Bloom.Members.{parse_all, covered, member-add_all, from_ips-parse_all}
use fpga_pi_parallel_nids.Bloom.{h1, h2, init, member, add_all, from_ips, ip_to_int}
use fpga_pi_parallel_nids.Traffic.{has}
use fpga_pi_parallel_nids.Benchmark.{ints_of}

covered_lem :
    (xs : List ℕ) (x : ℕ)
    → has xs x ≡ true
    → (covered xs (h1 x) ≡ true) × (covered xs (h2 x) ≡ true)
unfolding has
covered_lem [] x found = absurd cc
covered_lem (y ∷ ys) x found = elim (Bool-cases (y == x)) [
  | inl e ↦ let same : y ≡ x = ground arith in rw same (ground arith, ground arith)
  | inr e ↦
      let (here, there) = covered_lem ys x (ground arith) in
      (ground (arith, here), ground (arith, there))
]

pub has-All : (P : ℕ → Type 0) (xs : List ℕ) (x : ℕ) → All P xs → has xs x ≡ true → P x
unfolding has
has-All P [] x all found = absurd cc
has-All P (y ∷ ys) x (here, rest) found = elim (Bool-cases (y == x)) [
  | inl e ↦ let same : y ≡ x = ground arith in subst P same here
  | inr e ↦ has-All P ys x rest (ground arith)
]

module _ {Text : Type 0} (inet_aton : Text → Result Bytes) where
  -- `inet_aton` gives bytes.
  abbrev pub GivesBytes : Type 0
  GivesBytes = (ip : Text) (packed : Bytes) → inet_aton ip ≡ ok packed → All IsByte packed

  pub ip_to_int-lt : (ip : Text) (x : ℕ) → GivesBytes → ip_to_int inet_aton ip ≡ ok x → x < 2 ^ 32
  unfolding ip_to_int
  ip_to_int-lt ip x gives e = elim (Result-cases (inet_aton ip)) [
    | inr (err, f) ↦ absurd (ground (arith, f))
    | inl (packed, f) ↦
        let small = from_bytes-lt 4 packed (gives ip packed f) in ground (arith, f, small)
  ]

  pub ints_of-parse_all : (ips : List Text) → ints_of inet_aton ips ≡ parse_all inet_aton ips
  unfolding ints_of
  ints_of-parse_all [] = refl
  ints_of-parse_all (ip ∷ ips) = simp (ints_of-parse_all ips)

  abbrev pub AreAddresses : Result (List ℕ) → Type 0
  AreAddresses (ok xs) = All (λ x. x < 2 ^ 32) xs
  AreAddresses (raise e) = Unit {0}

  pub AreAddresses-cons :
      (x : ℕ) (r : Result (List ℕ))
      → x < 2 ^ 32
      → AreAddresses r
      → AreAddresses (r >>= λ xs. ok (x ∷ xs))
  AreAddresses-cons x (ok xs) small rest = (small, rest)
  AreAddresses-cons x (raise e) small rest = tt

  pub ints_of-AreAddresses : GivesBytes → (ips : List Text) → AreAddresses (ints_of inet_aton ips)
  unfolding ints_of
  ints_of-AreAddresses gives [] = tt
  ints_of-AreAddresses gives (ip ∷ ips) = elim (Result-cases (ip_to_int inet_aton ip)) [
    | inl (x, e) ↦ rw e (
        AreAddresses-cons x (ints_of inet_aton ips) (ip_to_int-lt ip x gives e)
          (ints_of-AreAddresses gives ips))
    | inr (err, e) ↦ rw e tt
  ]

  -- The filter of the listed texts is that of their numbers, and it admits each of them.
  pub from_ips_lem :
      (ips : List Text) (xs : List ℕ)
      → ints_of inet_aton ips ≡ ok xs
      → from_ips inet_aton ips ≡ ok (add_all init xs)
  from_ips_lem ips xs e = rw (from_ips-parse_all inet_aton ips, sym (ints_of-parse_all ips), e)

  pub listed_lem :
      (ips : List Text) (xs : List ℕ)
      → GivesBytes
      → ints_of inet_aton ips ≡ ok xs
      → (x : ℕ) → has xs x ≡ true
      → (member (add_all init xs) x ≡ true) × (x < 2 ^ 32)
  listed_lem ips xs gives e x found = (
    let (first, second) = covered_lem xs x found in rw (member-add_all xs x, first, second),
    has-All (λ y. y < 2 ^ 32) xs x (subst AreAddresses e (ints_of-AreAddresses gives ips)) found,
  )
