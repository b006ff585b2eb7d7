-- ===== src/Prelude/Bits/Step.antt =====
-- The native operations on binary digits are `bitwise`, which makes as many rounds as its first
-- number. Here the rounds are dropped: each operation is its lowest digit beside the same operation
-- on the halves.
use Prim.Native.Nat.{
  ℕ, zero, suc, ◌+◌, ◌*◌, ◌/◌, ◌%◌, ◌≤◌, min, max, digits, bitwise, differ, bit_and, bit_or,
  bit_xor, bit_and-bitwise, bit_or-bitwise, bit_xor-bitwise,
}
use mathlib.Core.Path.{◌≡◌, refl, ◌∙◌, ap}
use mathlib.Core.Logic.{◌⊎◌, inl, inr}
use native.Mathlib.Omega.{arith}

-- `rest` is the result once the first number has run out, `digit` the operation on two digits.
module _ (rest : ℕ → ℕ) (digit : ℕ → ℕ → ℕ) where
  -- A round more than the number has digits changes nothing.
  spare_round :
      (rounds x y : ℕ)
      → x ≤ rounds
      → digits rest digit (suc rounds) x y ≡ digits rest digit rounds x y
  spare_round zero (suc x) y h = absurd (omega arith)
  spare_round zero zero y h = refl
  spare_round (suc rounds) zero y h = refl
  spare_round (suc rounds) (suc x) y h =
      ap (λ (t : ℕ). t * 2 + digit (suc x % 2) (y % 2))
        (spare_round rounds (suc x / 2) (y / 2) (omega arith))

  enough_rounds :
      (rounds x y : ℕ) → x ≤ rounds → digits rest digit rounds x y ≡ bitwise rest digit x y
  enough_rounds zero x y h = let e : x ≡ 0 = omega arith in rw e
  enough_rounds (suc rounds) x y h = elim (last h) [
    | inl le ↦ spare_round rounds x y le ∙ enough_rounds rounds x y le
    | inr e ↦ rw e
  ]
    where
      last : x ≤ suc rounds → (x ≤ rounds) ⊎ (x ≡ suc rounds)
      last h = ground arith

  -- Where `rest` agrees with a first number whose digits are all 0, one equation covers both cases.
  lowest_digit :
      ((y : ℕ) → rest y ≡ rest (y / 2) * 2 + digit 0 (y % 2))
      → (x y : ℕ)
      → bitwise rest digit x y ≡ bitwise rest digit (x / 2) (y / 2) * 2 + digit (x % 2) (y % 2)
  lowest_digit agree zero y = agree y
  lowest_digit agree (suc x) y =
      ap (λ (t : ℕ). t * 2 + digit (suc x % 2) (y % 2))
        (enough_rounds x (suc x / 2) (y / 2) (omega arith))

pub bit_or_step : (a b : ℕ) → bit_or a b ≡ bit_or (a / 2) (b / 2) * 2 + max (a % 2) (b % 2)
bit_or_step = simp bit_or-bitwise (lowest_digit (λ b. b) max (λ b. omega arith))

pub bit_xor_step : (a b : ℕ) → bit_xor a b ≡ bit_xor (a / 2) (b / 2) * 2 + differ (a % 2) (b % 2)
bit_xor_step = simp bit_xor-bitwise (lowest_digit (λ b. b) differ (λ b. omega arith))

pub bit_and_step : (a b : ℕ) → bit_and a b ≡ bit_and (a / 2) (b / 2) * 2 + min (a % 2) (b % 2)
bit_and_step = simp bit_and-bitwise (lowest_digit (λ b. 0) min (λ b. omega arith))
