-- ===== src/Prelude/Bits/Laws.antt =====
-- The bit of a number at a position, and the operations bit by bit.
use Prim.Native.Nat.{
  ℕ, zero, suc, ◌+◌, ◌-◌, ◌*◌, ◌/◌, ◌%◌, ◌^◌, ◌≤◌, ◌<◌, min, max, bit_and, bit_or, bit_xor, differ,
}
use mathlib.Core.Path.{◌≡◌, refl, ap}
use native.Mathlib.Nat.{pow-suc, one-le-pow, div-add-mod, div-div-eq-div-mul, pow-succ'}
use native.Mathlib.Omega.{arith}
use fpga_pi_parallel_nids.Prelude.Bits.Step.{bit_and_step, bit_or_step, bit_xor_step}
use fpga_pi_parallel_nids.Prelude.Tests.{◌==◌, if◌then◌else◌}

-- Bit `i` of `x`, as 0 or 1.
unfoldable pub bit_at : ℕ → ℕ → ℕ
bit_at x zero = x % 2
bit_at x (suc i) = bit_at (x / 2) i

pub bit_at-lt : (x i : ℕ) → bit_at x i < 2
unfolding bit_at
bit_at-lt x zero = omega arith
bit_at-lt x (suc i) = bit_at-lt (x / 2) i

pub differ-lt : (x y : ℕ) → x < 2 → y < 2 → differ x y < 2
differ-lt zero y hx hy = hy
differ-lt (suc x) zero hx hy = hx
differ-lt (suc x) (suc y) hx hy = differ-lt x y (omega arith) (omega arith)

pub bit_at-div : (x i : ℕ) → bit_at x i ≡ x / 2 ^ i % 2
unfolding bit_at
bit_at-div x zero = omega arith
bit_at-div x (suc i) = rw (← same) (bit_at-div (x / 2) i)
  where
    same : x / 2 / 2 ^ i ≡ x / 2 ^ suc i
    same = rw pow-succ' (div-div-eq-div-mul x 2 (2 ^ i))

pub bit_at-bit_or : (a b i : ℕ) → bit_at (bit_or a b) i ≡ max (bit_at a i) (bit_at b i)
unfolding bit_at
bit_at-bit_or a b zero = omega (arith, bit_or_step a b)
bit_at-bit_or a b (suc i) = rw half (bit_at-bit_or (a / 2) (b / 2) i)
  where
    half : bit_or a b / 2 ≡ bit_or (a / 2) (b / 2)
    half = omega (arith, bit_or_step a b)

pub bit_at-bit_and : (a b i : ℕ) → bit_at (bit_and a b) i ≡ min (bit_at a i) (bit_at b i)
unfolding bit_at
bit_at-bit_and a b zero = omega (arith, bit_and_step a b)
bit_at-bit_and a b (suc i) = rw half (bit_at-bit_and (a / 2) (b / 2) i)
  where
    half : bit_and a b / 2 ≡ bit_and (a / 2) (b / 2)
    half = omega (arith, bit_and_step a b)

pub bit_at-bit_xor : (a b i : ℕ) → bit_at (bit_xor a b) i ≡ differ (bit_at a i) (bit_at b i)
unfolding bit_at
bit_at-bit_xor a b zero = omega (arith, bit_xor_step a b, differ-lt (a % 2) (b % 2))
bit_at-bit_xor a b (suc i) = rw half (bit_at-bit_xor (a / 2) (b / 2) i)
  where
    half : bit_xor a b / 2 ≡ bit_xor (a / 2) (b / 2)
    half = omega (arith, bit_xor_step a b, differ-lt (a % 2) (b % 2) (omega arith) (omega arith))

pub bit_at-zero : (i : ℕ) → bit_at 0 i ≡ 0
unfolding bit_at
bit_at-zero zero = refl
bit_at-zero (suc i) = bit_at-zero i

two-pow-half : (k : ℕ) → 2 ^ suc k / 2 ≡ 2 ^ k
two-pow-half k = omega (arith, pow-suc 2 k)

mul-two-pow-half : (x k : ℕ) → x * 2 ^ suc k / 2 ≡ x * 2 ^ k
mul-two-pow-half x k = omega (arith, ap (λ (t : ℕ). x * t) (pow-suc 2 k))

pub bit_at-two-pow : (k i : ℕ) → bit_at (2 ^ k) i ≡ (if k == i then 1 else 0)
unfolding bit_at
bit_at-two-pow zero zero = refl
bit_at-two-pow zero (suc i) = ground (arith, bit_at-zero i)
bit_at-two-pow (suc k) zero = ground (arith, pow-suc 2 k)
bit_at-two-pow (suc k) (suc i) = rw two-pow-half (ground (arith, bit_at-two-pow k i))

-- A number below 2 ^ k has no bit from k on.
pub bit_at-eq_zero : (k x i : ℕ) → x < 2 ^ k → k ≤ i → bit_at x i ≡ 0
unfolding bit_at
bit_at-eq_zero zero x i h le = ground (arith, bit_at-zero i)
bit_at-eq_zero (suc k) x zero h le = absurd (omega arith)
bit_at-eq_zero (suc k) x (suc i) h le =
    bit_at-eq_zero k (x / 2) i (omega (arith, pow-suc 2 k)) (omega arith)

-- A shift to the left moves every bit, and leaves zeros behind.
pub bit_at-shift : (n x i j : ℕ) → i ≡ n + j → bit_at (x * 2 ^ n) i ≡ bit_at x j
unfolding bit_at
bit_at-shift zero x i j e =
    let f : i ≡ j = omega arith in let g : x * 1 ≡ x = omega arith in rw (f, g)
bit_at-shift (suc n) x zero j e = absurd (omega arith)
bit_at-shift (suc n) x (suc i) j e = rw (mul-two-pow-half x n) (bit_at-shift n x i j (omega arith))

pub bit_at-shift_low : (n x i : ℕ) → i < n → bit_at (x * 2 ^ n) i ≡ 0
unfolding bit_at
bit_at-shift_low zero x i h = elim h [ ]
bit_at-shift_low (suc n) x zero h = omega (arith, ap (λ (t : ℕ). x * t) (pow-suc 2 n))
bit_at-shift_low (suc n) x (suc i) h =
    rw (mul-two-pow-half x n) (bit_at-shift_low n x i (omega arith))

-- Two numbers below 2 ^ k with the same bits are equal.
pub bit_at_ext : (k a b : ℕ) → a < 2 ^ k → b < 2 ^ k → ((i : ℕ) → bit_at a i ≡ bit_at b i) → a ≡ b
unfolding bit_at
bit_at_ext zero a b ha hb h = omega arith
bit_at_ext (suc k) a b ha hb h =
    omega (arith, h 0, pow-suc 2 k, bit_at_ext k (a / 2) (b / 2) below_a below_b (λ i. h (suc i)))
  where
    below_a : a / 2 < 2 ^ k
    below_a = omega (arith, pow-suc 2 k)

    below_b : b / 2 < 2 ^ k
    below_b = omega (arith, pow-suc 2 k)

bit_and-zero : (k a : ℕ) → a < 2 ^ k → bit_and a 0 ≡ 0
bit_and-zero zero a h = let e : a ≡ 0 = omega arith in rw e
bit_and-zero (suc k) a h =
    omega
      (arith, bit_and_step a 0, pow-suc 2 k, bit_and-zero k (a / 2) (omega (arith, pow-suc 2 k)))

lt-two-pow : (a : ℕ) → a < 2 ^ a
lt-two-pow zero = omega arith
lt-two-pow (suc a) = omega (arith, pow-suc 2 a, lt-two-pow a)

pub bit_and-zero_right : (a : ℕ) → bit_and a 0 ≡ 0
bit_and-zero_right a = bit_and-zero a a (lt-two-pow a)

-- `x & (1 << k)` is the bit in its place.
pub bit_and-two-pow : (a k : ℕ) → bit_and a (2 ^ k) ≡ bit_at a k * 2 ^ k
unfolding bit_at
bit_and-two-pow a zero = omega (arith, bit_and_step a 1, bit_and-zero_right (a / 2))
bit_and-two-pow a (suc k) = omega (
  arith,
  bit_and_step a (2 ^ suc k),
  ap (bit_and (a / 2)) (two-pow-half k),
  pow-suc 2 k,
  ap (λ (t : ℕ). bit_at (a / 2) k * t) (pow-suc 2 k),
  bit_and-two-pow (a / 2) k,
)

mod-two-pow-suc : (k a : ℕ) → a % 2 ^ suc k ≡ a / 2 % 2 ^ k * 2 + a % 2
mod-two-pow-suc k a = omega (
  arith,
  div-add-mod (a / 2) (2 ^ k),
  div-add-mod a (2 ^ suc k),
  div-div-eq-div-mul a 2 (2 ^ k),
  ap (λ (t : ℕ). 2 ^ k * t) same,
  ap (λ (t : ℕ). t * (a / 2 ^ suc k)) (pow-suc 2 k),
)
  where
    same : a / 2 / 2 ^ k ≡ a / 2 ^ suc k
    same = rw pow-succ' (div-div-eq-div-mul a 2 (2 ^ k))

-- `x & (2 ** k - 1)` is the remainder by 2 ** k.
pub bit_and_mask : (k a : ℕ) → bit_and a (2 ^ k - 1) ≡ a % 2 ^ k
bit_and_mask zero a = omega (arith, bit_and-zero_right a)
bit_and_mask (suc k) a = ground (
  arith,
  bit_and_step a (2 ^ suc k - 1),
  ap (bit_and (a / 2)) halved,
  pow-suc 2 k,
  one-le-pow k 2,
  bit_and_mask k (a / 2),
  mod-two-pow-suc k a,
)
  where
    halved : (2 ^ suc k - 1) / 2 ≡ 2 ^ k - 1
    halved = omega (arith, pow-suc 2 k, one-le-pow k 2 (omega arith))

-- `|` stays within the width of its operands.
pub bit_or-lt : (k a b : ℕ) → a < 2 ^ k → b < 2 ^ k → bit_or a b < 2 ^ k
bit_or-lt zero a b ha hb =
    let e : a ≡ 0 = omega arith in let f : b ≡ 0 = omega arith in rw (e, f) (omega arith)
bit_or-lt (suc k) a b ha hb = omega (
  arith,
  bit_or_step a b,
  pow-suc 2 k,
  bit_or-lt k (a / 2) (b / 2) (omega (arith, pow-suc 2 k)) (omega (arith, pow-suc 2 k)),
)
