-- ===== src/Hll/Rank.antt =====
-- hll.py: `_rank` finds the leftmost one of a 21-bit word.
use fpga_pi_parallel_nids.Prelude.{
  ℕ, zero, suc, ◌+◌, ◌*◌, ◌^◌, ◌≤◌, ◌<◌, bit_and, ◌≡◌, refl, ap, ◌⊎◌, inl, inr, false, arith, leb,
  Bool-cases,
}
use native.Mathlib.Nat.{pow-suc, pow-le-pow_right}
use fpga_pi_parallel_nids.Prelude.Bits.{bit_at-div, bit_and-two-pow, bit_and_mask}
use fpga_pi_parallel_nids.Prelude.Bytes.{truthy}
use fpga_pi_parallel_nids.Hll.{msb, rank_loop, rank, fmix32, new_rank}

-- The test of the loop, on a word of 21 bits.
top_bit : (w : ℕ) → w < 2 ^ 21 → truthy (bit_and w msb) ≡ leb (2 ^ 20) w
top_bit w h = ground (arith, bit_and-two-pow w 20, bit_at-div w 20)

-- The loop shifts the word `k` times, until its top bit is set.
rank_loop_shifts :
    (fuel w r : ℕ)
    → w < 2 ^ 21
    → 2 ^ 20 ≤ w * 2 ^ fuel
    → (k : ℕ) × (rank_loop fuel w r ≡ r + k)
      × (k ≤ fuel)
      × (2 ^ 20 ≤ w * 2 ^ k)
      × (w * 2 ^ k < 2 ^ 21)
unfolding rank_loop
rank_loop_shifts zero w r h enough = (0, omega arith, omega arith, omega arith, omega arith)
rank_loop_shifts (suc fuel) w r h enough = elim (Bool-cases (leb (2 ^ 20) w)) [
  | inl e ↦ (0, ground (arith, top_bit w h), omega arith, ground arith, omega arith)
  | inr e ↦
      let (k, same, le, lo, hi) =
        rank_loop_shifts fuel (w * 2) (r + 1) (ground arith)
          (omega (arith, ap (λ (t : ℕ). w * t) (pow-suc 2 fuel))) in
      (
        suc k,
        ground (arith, top_bit w h, same),
        omega arith,
        omega (arith, ap (λ (t : ℕ). w * t) (pow-suc 2 k)),
        omega (arith, ap (λ (t : ℕ). w * t) (pow-suc 2 k)),
      )
]

shift_bound : (n k : ℕ) → suc n * 2 ^ k < 2 ^ 21 → k ≤ 20
shift_bound n k h = elim (Bool-cases (leb k 20)) [
  | inl e ↦ ground arith
  | inr e ↦ absurd (omega (arith, pow-le-pow_right {n = 2} (omega arith) (wide e), mul_le))
]
  where
    wide : leb k 20 ≡ false → 21 ≤ k
    wide e = ground arith

    mul_le : 2 ^ k ≤ suc n * 2 ^ k
    mul_le = grind arith

-- The rank of a word of 21 bits is 22 if the word is 0, and otherwise the place of its leftmost
-- one: between 1 and 21, with the word shifted by one place less just filling 21 bits.
pub rank_position :
    (w : ℕ)
    → w < 2 ^ 21
    → ((w ≡ 0) × (rank w ≡ 22))
      ⊎ ((k : ℕ) × (rank w ≡ k + 1) × (k ≤ 20) × (2 ^ 20 ≤ w * 2 ^ k) × (w * 2 ^ k < 2 ^ 21))
unfolding rank
rank_position zero h = inl (refl, refl)
rank_position (suc n) h =
    let (k, same, le, lo, hi) = rank_loop_shifts 21 (suc n) 1 h (omega arith) in
    inr (k, ground (arith, same), shift_bound n k hi, lo, hi)

pub rank_bounds : (w : ℕ) → w < 2 ^ 21 → (1 ≤ rank w) × (rank w ≤ 22)
rank_bounds w h = elim (rank_position w h) [ inl e ↦ omega arith | inr e ↦ omega arith ]

pub new_rank_bounds : (ip : ℕ) → (1 ≤ new_rank ip) × (new_rank ip ≤ 22)
unfolding new_rank
new_rank_bounds ip = rank_bounds _ (omega (arith, bit_and_mask 21 (fmix32 ip)))
