-- ===== src/Bloom/Bits.antt =====
-- bloom.py: the filter's byte array, bit by bit.
use fpga_pi_parallel_nids.Prelude.{
  ℕ, zero, suc, ◌*◌, ◌/◌, ◌%◌, ◌^◌, ◌≤◌, ◌<◌, bit_or, ◌≡◌, ◌∙◌, false, ◌||◌, [], ◌∷◌, arith, ◌==◌,
  if◌then◌else◌, length, get_or, set, All, length-set, get_or-set, length-replicate,
  get_or-replicate,
}
use fpga_pi_parallel_nids.Prelude.Bits.{
  bit_at, bit_at-lt, bit_at-zero, bit_at-bit_or, bit_at-two-pow, bit_and_mask, bit_and-two-pow,
  bit_or-lt,
}
use fpga_pi_parallel_nids.Prelude.Bytes.{Bytes, IsByte, zeros-IsByte}
use fpga_pi_parallel_nids.Bloom.{BloomFilter, h1, h2, init, set_bit, get_bit}
use native.Mathlib.Nat.{one-le-pow, pow-le-pow_right}

-- The array keeps its size, and its elements stay bytes.
pub record IsValid (bf : BloomFilter) : Type 0 where
  pub size : length bf.bits ≡ 8192
  pub bytes : All IsByte bf.bits

pub h1-lt : (x : ℕ) → h1 x < 65536
unfolding h1
h1-lt x = omega (arith, bit_and_mask 32 (x * 0x9E3779B1))

pub h2-lt : (x : ℕ) → h2 x < 65536
unfolding h2
h2-lt x = omega (arith, bit_and_mask 32 (x * 0x85EBCA77))

pub get_or-IsByte : (bs : Bytes) (i : ℕ) → All IsByte bs → IsByte (get_or bs i 0)
get_or-IsByte [] i h = omega arith
get_or-IsByte (b ∷ bs) zero h = h.0
get_or-IsByte (b ∷ bs) (suc i) h = get_or-IsByte bs i h.1

set-IsByte : (bs : Bytes) (i v : ℕ) → All IsByte bs → IsByte v → All IsByte (set bs i v)
set-IsByte [] i v h hv = tt
set-IsByte (b ∷ bs) zero v h hv = (hv, h.1)
set-IsByte (b ∷ bs) (suc i) v h hv = (h.0, set-IsByte bs i v h.1 hv)

-- The filter's bit as a number.
abbrev bit_of : BloomFilter → ℕ → ℕ
bit_of bf i = bit_at (get_or bf.bits (i / 8) 0) (i % 8)

pub get_bit-bit_at : (bf : BloomFilter) (i : ℕ) → get_bit bf i ≡ (bit_of bf i == 1)
unfolding get_bit
get_bit-bit_at bf i =
    rw (bit_and_mask 3 i, one_mul, bit_and-two-pow)
      (ground (arith, positive, bit_at-lt byte (i % 8)))
  where
    byte : ℕ
    byte = get_or bf.bits (i / 8) 0

    one_mul : 1 * 2 ^ (i % 8) ≡ 2 ^ (i % 8)
    one_mul = omega arith

    positive : 0 < 2 ^ (i % 8)
    positive = one-le-pow (i % 8) 2 (omega arith)

bit_mask-IsByte : (i : ℕ) → IsByte (2 ^ (i % 8))
bit_mask-IsByte i = omega (arith, pow-le-pow_right {n = 2} (omega arith) (in_byte i))
  where
    in_byte : (i : ℕ) → i % 8 ≤ 7
    in_byte i = omega arith

-- What `set_bit` stores.
new_byte : BloomFilter → ℕ → ℕ
new_byte bf i = bit_or (get_or bf.bits (i / 8) 0) (2 ^ (i % 8))

set_bit-bits :
    (bf : BloomFilter) (i : ℕ)
    → set_bit bf i ≡ record { bits = set bf.bits (i / 8) (new_byte bf i) }
unfolding set_bit new_byte
set_bit-bits bf i = rw (bit_and_mask 3 i, one_mul)
  where
    one_mul : 1 * 2 ^ (i % 8) ≡ 2 ^ (i % 8)
    one_mul = omega arith

pub set_bit-IsValid : {bf : BloomFilter} (i : ℕ) → IsValid bf → IsValid (set_bit bf i)
set_bit-IsValid {bf} i v = rw set_bit-bits (record {
  size = length-set bf.bits (i / 8) (new_byte bf i) ∙ v.size;
  bytes = set-IsByte bf.bits (i / 8) (new_byte bf i) v.bytes (
      unfold new_byte in
      bit_or-lt 8 _ _ (get_or-IsByte bf.bits (i / 8) v.bytes) (bit_mask-IsByte i));
})

bit_of-set_bit :
    (bf : BloomFilter) (i j : ℕ)
    → IsValid bf
    → i < 65536
    → bit_of (set_bit bf i) j ≡ (if i == j then 1 else bit_of bf j)
unfolding new_byte
bit_of-set_bit bf i j v h =
    rw
      (
        set_bit-bits bf i,
        get_or-set bf.bits (i / 8) (j / 8) (new_byte bf i) 0 (omega (arith, v.size)),
      )
      (ground (
        arith,
        bit_at-bit_or (get_or bf.bits (i / 8) 0) (2 ^ (i % 8)) (j % 8),
        bit_at-two-pow (i % 8) (j % 8),
        bit_at-lt (get_or bf.bits (i / 8) 0) (j % 8),
      ))

-- Writing bit `i` sets it and leaves every other bit.
pub get_bit-set_bit :
    (bf : BloomFilter) (i j : ℕ)
    → IsValid bf
    → i < 65536
    → get_bit (set_bit bf i) j ≡ (i == j || get_bit bf j)
get_bit-set_bit bf i j v h =
    ground (arith, get_bit-bit_at (set_bit bf i) j, get_bit-bit_at bf j, bit_of-set_bit bf i j v h)

pub get_bit-init : (i : ℕ) → get_bit init i ≡ false
get_bit-init i = ground (arith, get_bit-bit_at init i, empty)
  where
    byte : get_or init.bits (i / 8) 0 ≡ 0
    byte = unfold init in get_or-replicate 8192 (i / 8) 0

    empty : bit_of init i ≡ 0
    empty = rw byte (bit_at-zero (i % 8))

pub init-IsValid : IsValid init
init-IsValid = record {
  size = unfold init in length-replicate {A = ℕ} 8192 0;
  bytes = unfold init in zeros-IsByte 8192;
}
