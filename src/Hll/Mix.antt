-- ===== src/Hll/Mix.antt =====
-- hll.py: the Murmur3 finaliser is a permutation of the 32-bit numbers.
use Prim.Native.Nat.{differ, suc-le-suc}
use fpga_pi_parallel_nids.Prelude.{
  ℕ, zero, suc, ◌+◌, ◌*◌, ◌/◌, ◌%◌, ◌^◌, ◌≤◌, ◌<◌, bit_and, bit_xor, ◌≡◌, refl, sym, ◌∙◌, ap, arith,
}
use native.Mathlib.Nat.{
  pow-suc, pow-succ', add-suc, div-div-eq-div-mul, div-le_self, le_trans, mod-eq_of_lt,
}
use fpga_pi_parallel_nids.Prelude.Bits.{
  bit_at, bit_at-lt, bit_at-bit_xor, bit_at_ext, bit_at-eq_zero, bit_and_mask, bit_xor_step,
  differ-lt,
}
use fpga_pi_parallel_nids.Hll.{mask32, xorshift, fmix32}

bit_xor-lt : (k a b : ℕ) → a < 2 ^ k → b < 2 ^ k → bit_xor a b < 2 ^ k
bit_xor-lt zero a b ha hb =
    let e : a ≡ 0 = omega arith in let f : b ≡ 0 = omega arith in rw (e, f) (omega arith)
bit_xor-lt (suc k) a b ha hb = omega (
  arith,
  bit_xor_step a b,
  differ-lt (a % 2) (b % 2),
  pow-suc 2 k,
  bit_xor-lt k (a / 2) (b / 2) (omega (arith, pow-suc 2 k)) (omega (arith, pow-suc 2 k)),
)

bit_at-shr : (n x i : ℕ) → bit_at (x / 2 ^ n) i ≡ bit_at x (i + n)
unfolding bit_at
bit_at-shr zero x i =
    let e : x / 1 ≡ x = omega arith in let f : i + 0 ≡ i = omega arith in rw (e, f)
bit_at-shr (suc n) x i = rw (← halved, add-suc) (bit_at-shr n (x / 2) i)
  where
    halved : x / 2 / 2 ^ n ≡ x / 2 ^ suc n
    halved = rw pow-succ' (div-div-eq-div-mul x 2 (2 ^ n))

bit_at-xorshift : (n h i : ℕ) → bit_at (xorshift n h) i ≡ differ (bit_at h i) (bit_at h (i + n))
unfolding xorshift
bit_at-xorshift n h i = rw (bit_at-bit_xor h (h / 2 ^ n) i, bit_at-shr n h i)

xorshift-lt : (n h : ℕ) → h < 2 ^ 32 → xorshift n h < 2 ^ 32
unfolding xorshift
xorshift-lt n h lt =
    bit_xor-lt 32 h (h / 2 ^ n) lt (le_trans (suc-le-suc (div-le_self h (2 ^ n))) lt)

differ_cancel : (x y z : ℕ) → x < 2 → y < 2 → z < 2 → differ (differ x y) (differ y z) ≡ differ x z
differ_cancel zero zero z hx hy hz = refl
differ_cancel zero (suc zero) zero hx hy hz = refl
differ_cancel zero (suc zero) (suc zero) hx hy hz = refl
differ_cancel (suc zero) zero zero hx hy hz = refl
differ_cancel (suc zero) zero (suc zero) hx hy hz = refl
differ_cancel (suc zero) (suc zero) zero hx hy hz = refl
differ_cancel (suc zero) (suc zero) (suc zero) hx hy hz = refl
differ_cancel x y z hx hy hz = absurd (omega arith)

-- A second xorshift by the same amount leaves the copy that is shifted twice as far.
bit_at-xorshift_twice :
    (n h i : ℕ) → bit_at (xorshift n (xorshift n h)) i ≡ differ (bit_at h i) (bit_at h (i + n + n))
bit_at-xorshift_twice n h i =
    rw (bit_at-xorshift n (xorshift n h) i, bit_at-xorshift n h i, bit_at-xorshift n h (i + n))
      (differ_cancel _ _ _ (bit_at-lt h i) (bit_at-lt h (i + n)) (bit_at-lt h (i + n + n)))

xorshift_self : (n h : ℕ) → h < 2 ^ 32 → 32 ≤ n + n → xorshift n (xorshift n h) ≡ h
xorshift_self n h lt wide = bit_at_ext 32 _ _ (xorshift-lt n _ (xorshift-lt n h lt)) lt (λ i.
    bit_at-xorshift_twice n h i
    ∙ rw (bit_at-eq_zero 32 h (i + n + n) lt (omega arith)) (differ-zero (bit_at h i)))
  where
    differ-zero : (x : ℕ) → differ x 0 ≡ x
    differ-zero zero = refl
    differ-zero (suc x) = refl

xorshift_double : (h : ℕ) → h < 2 ^ 32 → xorshift 13 (xorshift 13 h) ≡ xorshift 26 h
xorshift_double h lt =
    bit_at_ext 32 _ _ (xorshift-lt 13 _ (xorshift-lt 13 h lt)) (xorshift-lt 26 h lt) (λ i.
      bit_at-xorshift_twice 13 h i
      ∙ ap (λ k. differ (bit_at h i) (bit_at h k)) (twice i)
      ∙ sym (bit_at-xorshift 26 h i))
  where
    twice : (i : ℕ) → i + 13 + 13 ≡ i + 26
    twice i = omega arith

xorshift_thirteen : (h : ℕ) → h < 2 ^ 32 → xorshift 26 (xorshift 13 (xorshift 13 h)) ≡ h
xorshift_thirteen h lt = rw (xorshift_double h lt) (xorshift_self 26 h lt (omega arith))

-- The inverse: the multiplications by the inverses modulo 2 ** 32, and the shifts undone.
pub unmix32 : ℕ → ℕ
unmix32 y =
    let h3 = xorshift 16 y * 0x7ed1b41d % 2 ^ 32 in
    let h1 = xorshift 26 (xorshift 13 h3) * 0xa5cb9243 % 2 ^ 32 in xorshift 16 h1

-- `fmix32` as remainders.
fmix32_lem :
    (h : ℕ)
    → h < 2 ^ 32
    → fmix32 h
      ≡ xorshift 16 (xorshift 13 (xorshift 16 h * 0x85EBCA6B % 2 ^ 32) * 0xC2B2AE35 % 2 ^ 32)
unfolding fmix32
fmix32_lem h lt = simp (bit_and_mask 32) (rw (mod-eq_of_lt lt))

pub fmix32-lt : (h : ℕ) → fmix32 h < 2 ^ 32
unfolding fmix32
fmix32-lt h = xorshift-lt 16 _ (
    let e =
      bit_and_mask 32
        (xorshift 13 (bit_and (xorshift 16 (bit_and h mask32) * 0x85EBCA6B) mask32) * 0xC2B2AE35) in
    omega arith)

-- The hash is a number of 32 bits, and on those it loses nothing: `unmix32` finds the address.
pub unmix32-fmix32 : (h : ℕ) → h < 2 ^ 32 → (fmix32 h < 2 ^ 32) × (unmix32 (fmix32 h) ≡ h)
unmix32-fmix32 h lt = rw (fmix32_lem h lt) (xorshift-lt 16 last (omega arith), undone)
  where
    first : ℕ
    first = xorshift 16 h * 0x85EBCA6B % 2 ^ 32

    last : ℕ
    last = xorshift 13 first * 0xC2B2AE35 % 2 ^ 32

    undo_last : last * 0x7ed1b41d % 2 ^ 32 ≡ xorshift 13 first
    undo_last = omega (arith, xorshift-lt 13 first (omega arith))

    undo_first : first * 0xa5cb9243 % 2 ^ 32 ≡ xorshift 16 h
    undo_first = omega (arith, xorshift-lt 16 h lt)

    undone : unmix32 (xorshift 16 last) ≡ h
    undone =
        unfold unmix32 in
        rw
          (
            xorshift_self 16 last (omega arith) (omega arith),
            undo_last,
            xorshift_thirteen first (omega arith),
            undo_first,
          )
          (xorshift_self 16 h lt (omega arith))
