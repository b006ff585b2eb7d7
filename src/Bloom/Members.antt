-- ===== src/Bloom/Members.antt =====
-- bloom.py: which addresses the filter admits after any sequence of insertions.
use fpga_pi_parallel_nids.Prelude.{
  ℕ, ◌≡◌, refl, Bool, true, false, ◌&&◌, ◌||◌, List, [], ◌∷◌, Result, ok, raise, ◌>>=◌, arith, ◌==◌,
  Result-cases, inl, inr,
}
use fpga_pi_parallel_nids.Bloom.{
  BloomFilter, h1, h2, init, set_bit, get_bit, add, member, add_all, ip_to_int, from_ips_loop,
  from_ips,
}
use fpga_pi_parallel_nids.Bloom.Bits.{
  IsValid, h1-lt, h2-lt, set_bit-IsValid, get_bit-set_bit, get_bit-init, init-IsValid,
}

pub add-IsValid : (bf : BloomFilter) (x : ℕ) → IsValid bf → IsValid (add bf x)
unfolding add
add-IsValid bf x v = set_bit-IsValid (h2 x) (set_bit-IsValid (h1 x) v)

pub add_all-IsValid : (bf : BloomFilter) (xs : List ℕ) → IsValid bf → IsValid (add_all bf xs)
unfolding add_all
add_all-IsValid bf [] v = v
add_all-IsValid bf (x ∷ xs) v = add_all-IsValid (add bf x) xs (add-IsValid bf x v)

-- The specification: some address of the list has `i` among its two hashes.
abbrev pub covered : List ℕ → ℕ → Bool
covered [] i = false
covered (x ∷ xs) i = h1 x == i || (h2 x == i || covered xs i)

get_bit-add :
    (bf : BloomFilter) (x i : ℕ)
    → IsValid bf
    → get_bit (add bf x) i ≡ (h1 x == i || (h2 x == i || get_bit bf i))
unfolding add
get_bit-add bf x i v = ground (
  arith,
  get_bit-set_bit bf (h1 x) i v (h1-lt x),
  get_bit-set_bit (set_bit bf (h1 x)) (h2 x) i (set_bit-IsValid (h1 x) v) (h2-lt x),
)

get_bit-add_all :
    (bf : BloomFilter) (xs : List ℕ) (i : ℕ)
    → IsValid bf
    → get_bit (add_all bf xs) i ≡ (covered xs i || get_bit bf i)
unfolding add_all
get_bit-add_all bf [] i v = refl
get_bit-add_all bf (x ∷ xs) i v =
    ground (arith, get_bit-add_all (add bf x) xs i (add-IsValid bf x v), get_bit-add bf x i v)

-- After adding any list of addresses to an empty filter, an address is admitted exactly when each
-- of its two hashes is a hash of some address of the list.
pub member-add_all :
    (xs : List ℕ) (y : ℕ) → member (add_all init xs) y ≡ (covered xs (h1 y) && covered xs (h2 y))
unfolding member
member-add_all xs y = ground (
  arith,
  get_bit-add_all init xs (h1 y) init-IsValid,
  get_bit-add_all init xs (h2 y) init-IsValid,
  get_bit-init (h1 y),
  get_bit-init (h2 y),
)

get_bit_mono :
    (bf : BloomFilter) (xs : List ℕ) (i : ℕ)
    → IsValid bf
    → get_bit bf i ≡ true
    → get_bit (add_all bf xs) i ≡ true
get_bit_mono bf xs i v h = ground (arith, get_bit-add_all bf xs i v)

-- No false negative: on a valid filter an added address is admitted, whatever is added after it.
pub member-add_all_self :
    (bf : BloomFilter) (x : ℕ) (xs : List ℕ) → IsValid bf → member (add_all (add bf x) xs) x ≡ true
unfolding member
member-add_all_self bf x xs v = ground (
  arith,
  get_bit_mono (add bf x) xs (h1 x) (add-IsValid bf x v),
  get_bit_mono (add bf x) xs (h2 x) (add-IsValid bf x v),
  get_bit-add bf x (h1 x) v,
  get_bit-add bf x (h2 x) v,
)

module _ {Text : Type 0} (inet_aton : Text → Result (List ℕ)) where
  -- The addresses of a list of texts, or the first exception.
  abbrev pub parse_all : List Text → Result (List ℕ)
  parse_all [] = ok []
  parse_all (ip ∷ ips) = do x ← ip_to_int inet_aton ip; xs ← parse_all ips; ok (x ∷ xs)

  from_ips_loop-parse_all :
      (bf : BloomFilter) (ips : List Text)
      → from_ips_loop inet_aton bf ips ≡ (parse_all ips >>= λ xs. ok (add_all bf xs))
  unfolding from_ips_loop add_all
  from_ips_loop-parse_all bf [] = refl
  from_ips_loop-parse_all bf (ip ∷ ips) = elim (Result-cases (ip_to_int inet_aton ip)) [
    | inl (x, e) ↦ rw (e, from_ips_loop-parse_all (add bf x) ips) (cons_step x (parse_all ips))
    | inr (e, r) ↦ rw r
  ]
    where
      cons_step :
          (x : ℕ) (r : Result (List ℕ))
          → (r >>= λ xs. ok (add_all (add bf x) xs))
            ≡ ((r >>= λ xs. ok (x ∷ xs)) >>= λ xs. ok (add_all bf xs))
      cons_step x (ok xs) = refl
      cons_step x (raise e) = refl

  -- `from_ips` raises the first exception of an address, and otherwise is the filter of exactly
  -- the addresses that were read.
  pub from_ips-parse_all :
      (ips : List Text) → from_ips inet_aton ips ≡ (parse_all ips >>= λ xs. ok (add_all init xs))
  unfolding from_ips
  from_ips-parse_all ips = from_ips_loop-parse_all init ips
