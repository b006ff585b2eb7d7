-- ===== src/Hll/Registers.antt =====
-- hll.py: the harmonic sum and the count of empty registers against the registers themselves.
use fpga_pi_parallel_nids.Prelude.{
  ℕ, zero, suc, ◌+◌, ◌-◌, ◌*◌, ◌^◌, ◌≤◌, ◌<◌, ◌≡◌, refl, sym, ◌∙◌, ◌⊎◌, inl, inr, true, false, List,
  [], ◌∷◌, arith, ltb, ◌==◌, if◌then◌else◌, Bool-cases, length, get_or, set, length-set,
  length-replicate, replicate,
}
use native.Mathlib.Nat.{pow-le-pow_right}
use fpga_pi_parallel_nids.Hll.{
  Register, HyperLogLog, blank, init, live, rankval, index, new_rank, weight, update, window_tick,
}
use fpga_pi_parallel_nids.Hll.Mix.{fmix32-lt}
use fpga_pi_parallel_nids.Hll.Rank.{new_rank_bounds}

pub index-lt : (ip : ℕ) → index ip < 2048
unfolding index
index-lt ip = omega (arith, fmix32-lt ip)

weight-le : (r s : ℕ) → r ≤ s → weight s ≤ weight r
unfolding weight
weight-le r s h = omega (arith, pow-le-pow_right {n = 2} (omega arith) (antitone r s h))
  where
    antitone : (r s : ℕ) → r ≤ s → 32 - s ≤ 32 - r
    antitone r s h = omega arith

weight-zero : weight 0 ≡ 2 ^ 32
unfolding weight
weight-zero = refl

-- The harmonic sum that the registers stand for, and the number of the empty ones.
pub total : ℕ → List Register → ℕ
total epoch [] = 0
total epoch (r ∷ rs) = weight (live epoch r) + total epoch rs

pub empty : ℕ → List Register → ℕ
empty epoch [] = 0
empty epoch (r ∷ rs) = (if live epoch r == 0 then 1 else 0) + empty epoch rs

total-set :
    (epoch : ℕ) (rs : List Register) (b : ℕ) (v : Register)
    → b < length rs
    → total epoch (set rs b v) + weight (live epoch (get_or rs b blank))
      ≡ total epoch rs + weight (live epoch v)
unfolding total
total-set epoch [] b v h = elim h [ ]
total-set epoch (r ∷ rs) zero v h = omega arith
total-set epoch (r ∷ rs) (suc b) v h = omega (arith, total-set epoch rs b v (omega arith))

empty-set :
    (epoch : ℕ) (rs : List Register) (b : ℕ) (v : Register)
    → b < length rs
    → empty epoch (set rs b v) + (if live epoch (get_or rs b blank) == 0 then 1 else 0)
      ≡ empty epoch rs + (if live epoch v == 0 then 1 else 0)
unfolding empty
empty-set epoch [] b v h = elim h [ ]
empty-set epoch (r ∷ rs) zero v h = omega arith
empty-set epoch (r ∷ rs) (suc b) v h = omega (arith, empty-set epoch rs b v (omega arith))

total-le : (epoch : ℕ) (rs : List Register) → total epoch rs ≤ length rs * 2 ^ 32
unfolding total
total-le epoch [] = omega arith
total-le epoch (r ∷ rs) =
    omega (arith, total-le epoch rs, weight-le 0 (live epoch r) (omega arith), weight-zero)

empty-le : (epoch : ℕ) (rs : List Register) → empty epoch rs ≤ length rs
unfolding empty
empty-le epoch [] = omega arith
empty-le epoch (r ∷ rs) = ground (arith, empty-le epoch rs)

-- 2048 registers; the stored sum and the stored count of empty registers never fall below what the
-- registers stand for, and never exceed their reset values.
pub record IsCovered (h : HyperLogLog) : Type 0 where
  pub size : length h.reg ≡ 2048
  pub sum_covers : total h.epoch h.reg ≤ h.harmonic_sum
  pub zeros_cover : empty h.epoch h.reg ≤ h.zeros
  pub sum_bound : h.harmonic_sum ≤ 2048 * 2 ^ 32
  pub zeros_bound : h.zeros ≤ 2048

-- The stored sum and count are exactly those of the registers.
pub record IsExact (h : HyperLogLog) : Type 0 where
  pub size : length h.reg ≡ 2048
  pub sum_exact : h.harmonic_sum ≡ total h.epoch h.reg
  pub zeros_exact : h.zeros ≡ empty h.epoch h.reg

-- The state that `update` writes.
pub written : HyperLogLog → ℕ → HyperLogLog
written h ip = record h {
  reg = set h.reg (index ip) (record { epoch = h.epoch; rank_value = new_rank ip });
  harmonic_sum = (h.harmonic_sum + weight (new_rank ip)) - weight (rankval h (index ip));
  zeros = if rankval h (index ip) == 0 then h.zeros - 1 else h.zeros;
}

pub update_lem :
    (h : HyperLogLog) (ip : ℕ)
    → update h ip ≡ (if ltb (rankval h (index ip)) (new_rank ip) then written h ip else h)
unfolding update written
update_lem h ip = refl

module _ (h : HyperLogLog) (ip : ℕ) (size : length h.reg ≡ 2048) where
  total-written :
      total h.epoch (written h ip).reg + weight (rankval h (index ip))
      ≡ total h.epoch h.reg + weight (new_rank ip)
  unfolding written rankval
  total-written = ground (
    arith,
    total-set h.epoch h.reg (index ip) (record { epoch = h.epoch; rank_value = new_rank ip }),
    index-lt ip,
  )

  empty-written :
      empty h.epoch (written h ip).reg + (if rankval h (index ip) == 0 then 1 else 0)
      ≡ empty h.epoch h.reg
  unfolding written rankval
  empty-written = ground (
    arith,
    empty-set h.epoch h.reg (index ip) (record { epoch = h.epoch; rank_value = new_rank ip }),
    index-lt ip,
    new_rank_bounds ip,
  )

  length-written : length (written h ip).reg ≡ 2048
  unfolding written
  length-written = length-set h.reg (index ip) _ ∙ size

  -- What the source subtracts is never more than what is there.
  pub update_subtractions :
      total h.epoch h.reg ≤ h.harmonic_sum
      → empty h.epoch h.reg ≤ h.zeros
      → (weight (rankval h (index ip)) ≤ h.harmonic_sum + weight (new_rank ip))
        × (rankval h (index ip) ≡ 0 → 1 ≤ h.zeros)
  update_subtractions sum zeros = (omega (arith, total-written), λ e. ground (arith, empty-written))

  written-IsCovered : rankval h (index ip) < new_rank ip → IsCovered h → IsCovered (written h ip)
  written-IsCovered lt v = record {
    size = length-written;
    sum_covers = unfold written in omega (arith, total-written, v.sum_covers);
    zeros_cover = unfold written in ground (arith, empty-written, v.zeros_cover);
    sum_bound =
        unfold written in
        omega (arith, v.sum_bound, weight-le (rankval h (index ip)) (new_rank ip) (omega arith));
    zeros_bound = unfold written in ground (arith, v.zeros_bound);
  }

  written-IsExact : IsExact h → IsExact (written h ip)
  written-IsExact v = record {
    size = length-written;
    sum_exact = unfold written in omega (arith, total-written, v.sum_exact);
    zeros_exact = unfold written in ground (arith, empty-written, v.zeros_exact);
  }

-- Every update keeps the stored sum and count at least those of the registers, and within their
-- reset values, also where registers left by an earlier window are still live.
pub update-IsCovered : (h : HyperLogLog) (ip : ℕ) → IsCovered h → IsCovered (update h ip)
update-IsCovered h ip v =
    rw update_lem (split (Bool-cases (ltb (rankval h (index ip)) (new_rank ip))))
  where
    split :
        (ltb (rankval h (index ip)) (new_rank ip) ≡ true)
          ⊎ (ltb (rankval h (index ip)) (new_rank ip) ≡ false)
        → IsCovered (if ltb (rankval h (index ip)) (new_rank ip) then written h ip else h)
    split (inl e) = rw e (written-IsCovered h ip v.size (ground arith) v)
    split (inr e) = rw e v

-- As long as the stored sum and count are those of the registers, every update keeps them so.
pub update-IsExact : (h : HyperLogLog) (ip : ℕ) → IsExact h → IsExact (update h ip)
update-IsExact h ip v =
    rw update_lem (split (Bool-cases (ltb (rankval h (index ip)) (new_rank ip))))
  where
    split :
        (ltb (rankval h (index ip)) (new_rank ip) ≡ true)
          ⊎ (ltb (rankval h (index ip)) (new_rank ip) ≡ false)
        → IsExact (if ltb (rankval h (index ip)) (new_rank ip) then written h ip else h)
    split (inl e) = rw e (written-IsExact h ip v.size v)
    split (inr e) = rw e v

-- The end of a window restores the reset values, which cover any registers.
pub window_tick-IsCovered : (h : HyperLogLog) → IsCovered h → IsCovered (window_tick h)
window_tick-IsCovered h v = record {
  size = unfold window_tick in v.size;
  sum_covers = unfold window_tick in omega (arith, total-le (window_tick h).epoch h.reg, v.size);
  zeros_cover = unfold window_tick in omega (arith, empty-le (window_tick h).epoch h.reg, v.size);
  sum_bound = unfold window_tick in omega arith;
  zeros_bound = unfold window_tick in omega arith;
}

blank_registers :
    (n : ℕ) → (total 0 (replicate n blank) ≡ n * 2 ^ 32) × (empty 0 (replicate n blank) ≡ n)
unfolding total empty
blank_registers zero = (refl, refl)
blank_registers (suc n) =
    (omega (arith, blank_registers n, weight-zero), omega (arith, blank_registers n))

pub init-IsExact : IsExact init
init-IsExact = record {
  size = unfold init in length-replicate 2048 blank;
  sum_exact = unfold init in sym ((blank_registers 2048).0);
  zeros_exact = unfold init in sym ((blank_registers 2048).1);
}

pub init-IsCovered : IsCovered init
init-IsCovered = record {
  size = init-IsExact.size;
  sum_covers = omega (arith, init-IsExact.sum_exact);
  zeros_cover = omega (arith, init-IsExact.zeros_exact);
  sum_bound = unfold init in omega arith;
  zeros_bound = unfold init in omega arith;
}
