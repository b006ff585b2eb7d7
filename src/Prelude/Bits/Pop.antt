-- ===== src/Prelude/Bits/Pop.antt =====
-- `bin(x).count("1")`: the number of ones.
use Prim.Native.Nat.{ℕ, zero, suc, ◌+◌, ◌/◌, ◌%◌, ◌^◌, ◌≤◌, ◌<◌, bit_or}
use mathlib.Core.Path.{◌≡◌, refl, ap}
use mathlib.Core.Bool.{Bool}
use native.Mathlib.Nat.{pow-suc}
use native.Mathlib.Omega.{arith}
use fpga_pi_parallel_nids.Prelude.Tests.{◌==◌, if◌then◌else◌}
use fpga_pi_parallel_nids.Prelude.Bits.Step.{bit_or_step}
use fpga_pi_parallel_nids.Prelude.Bits.Laws.{bit_at}

ones : ℕ → ℕ → ℕ
ones zero x = 0
ones (suc fuel) zero = 0
ones (suc fuel) (suc n) = suc n % 2 + ones fuel (suc n / 2)

-- The digits of `x` are fewer than `x`, so `x` rounds are enough.
unfoldable pub popcount : ℕ → ℕ
unfolding ones
popcount x = ones x x

ones_fuel : (n m x : ℕ) → x ≤ n → x ≤ m → ones n x ≡ ones m x
unfolding ones
ones_fuel zero zero x p q = refl
ones_fuel zero (suc m) zero p q = refl
ones_fuel zero (suc m) (suc x) p q = absurd (omega arith)
ones_fuel (suc n) zero zero p q = refl
ones_fuel (suc n) zero (suc x) p q = absurd (omega arith)
ones_fuel (suc n) (suc m) zero p q = refl
ones_fuel (suc n) (suc m) (suc x) p q =
    omega (arith, ones_fuel n m (suc x / 2) (omega arith) (omega arith))

pub popcount_step : (x : ℕ) → popcount x ≡ x % 2 + popcount (x / 2)
unfolding popcount
popcount_step zero = omega arith
popcount_step (suc x) =
    omega (arith, ones_fuel x (suc x / 2) (suc x / 2) (omega arith) (omega arith))

pub popcount-zero : popcount 0 ≡ 0
unfolding popcount
popcount-zero = refl

bit_or-zero_below : (bound x : ℕ) → x ≤ bound → bit_or x 0 ≡ x
bit_or-zero_below zero x h = let e : x ≡ 0 = omega arith in rw e
bit_or-zero_below (suc bound) zero h = refl
bit_or-zero_below (suc bound) (suc x) h =
    omega (arith, bit_or-zero_below bound (suc x / 2) (omega arith), bit_or_step (suc x) 0)

pub bit_or-zero : (a : ℕ) → bit_or a 0 ≡ a
bit_or-zero a = bit_or-zero_below a a (omega arith)

two-pow-half : (k : ℕ) → 2 ^ suc k / 2 ≡ 2 ^ k
two-pow-half k = omega (arith, pow-suc 2 k)

-- Setting a bit adds one to the count exactly when the bit was clear.
pub popcount-bit_or : (a k : ℕ) → popcount (bit_or a (2 ^ k)) + bit_at a k ≡ popcount a + 1
unfolding bit_at
popcount-bit_or a zero = omega (
  arith,
  popcount_step (bit_or a 1),
  popcount_step a,
  bit_or_step a 1,
  bit_or-zero (a / 2),
  ap popcount halved,
)
  where
    halved : bit_or a 1 / 2 ≡ a / 2
    halved = omega (arith, bit_or_step a 1, bit_or-zero (a / 2))
popcount-bit_or a (suc k) = omega (
  arith,
  popcount_step (bit_or a (2 ^ suc k)),
  popcount_step a,
  bit_or_step a (2 ^ suc k),
  ap popcount halved,
  pow-suc 2 k,
  popcount-bit_or (a / 2) k,
)
  where
    halved : bit_or a (2 ^ suc k) / 2 ≡ bit_or (a / 2) (2 ^ k)
    halved =
        omega (arith, bit_or_step a (2 ^ suc k), pow-suc 2 k, ap (bit_or (a / 2)) (two-pow-half k))

-- A fingerprint of `k` bits has at most `k` ones.
pub popcount-le : (k x : ℕ) → x < 2 ^ k → popcount x ≤ k
popcount-le zero x h = let e : x ≡ 0 = omega arith in rw (e, popcount-zero) (omega arith)
popcount-le (suc k) x h =
    omega (arith, popcount_step x, popcount-le k (x / 2) (omega (arith, pow-suc 2 k)))

-- How many of 0, …, `n - 1` pass a test.
unfoldable pub count_below : ℕ → (ℕ → Bool) → ℕ
count_below zero f = 0
count_below (suc n) f = (if f 0 then 1 else 0) + count_below n (λ i. f (suc i))

pub count_below_ext :
    (n : ℕ) (f g : ℕ → Bool) → ((i : ℕ) → f i ≡ g i) → count_below n f ≡ count_below n g
unfolding count_below
count_below_ext zero f g h = refl
count_below_ext (suc n) f g h =
    ground (arith, h 0, count_below_ext n (λ i. f (suc i)) (λ i. g (suc i)) (λ i. h (suc i)))

pub popcount-count_below : (k x : ℕ) → x < 2 ^ k → popcount x ≡ count_below k (λ i. bit_at x i == 1)
unfolding bit_at count_below
popcount-count_below zero x h = let e : x ≡ 0 = omega arith in rw (e, popcount-zero)
popcount-count_below (suc k) x h =
    ground (arith, popcount_step x, popcount-count_below k (x / 2) (omega (arith, pow-suc 2 k)))
