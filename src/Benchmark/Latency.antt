-- ===== src/Benchmark/Latency.antt =====
-- benchmark.py: `latency_stats` and `main`. The floating-point results stand in a type of their own,
-- and what computes them is a parameter.
use fpga_pi_parallel_nids.Prelude.{
  ℕ, ◌-◌, min, List, [], ◌∷◌, Result, ok, raise, value_error, ◌>>=◌, ltb, leb, if◌then◌else◌,
  length, get_or,
}
use fpga_pi_parallel_nids.Prelude.Bytes.{Bytes}
use fpga_pi_parallel_nids.Bloom.{from_ips}
use fpga_pi_parallel_nids.Benchmark.{Draws, make_workload, run_cpu}

-- `us` is the division by 1000, `rank q n` is `math.ceil(q / 100 * n)`, and `fmean`, `median` and
-- `pstdev` are those of the statistics module.
pub record Floats (F : Type 0) : Type 0 where
  pub us : F → F
  pub of_int : ℕ → F
  pub zero_f : F
  pub rank : ℕ → ℕ → ℕ
  pub fmean : List ℕ → F
  pub median : List ℕ → F
  pub pstdev : List ℕ → F

-- `sorted`
unfoldable pub insert : ℕ → List ℕ → List ℕ
insert x [] = x ∷ []
insert x (y ∷ ys) = if leb x y then x ∷ (y ∷ ys) else y ∷ insert x ys

unfoldable pub sorted : List ℕ → List ℕ
sorted [] = []
sorted (x ∷ xs) = insert x (sorted xs)

pub record LatencyStats (F : Type 0) : Type 0 where
  pub count : ℕ
  pub mean_us : F
  pub median_us : F
  pub p99_us : F
  pub min_us : F
  pub max_us : F
  pub jitter_us : F

module _ {F : Type 0} (floats : Floats F) where
  -- `pct(q)`, on the sorted samples.
  unfoldable pub pct : List ℕ → ℕ → ℕ
  pct s q = get_or s (min (length s - 1) (floats.rank q (length s) - 1)) 0

  -- `fmean` of no samples raises StatisticsError, a ValueError, before anything is read.
  unfoldable pub latency_stats : List ℕ → Result (LatencyStats F)
  latency_stats samples_ns =
      let s = sorted samples_ns in
      let n = length s in
      if ltb 0 n
      then ok (record {
        count = n;
        mean_us = floats.us (floats.fmean s);
        median_us = floats.us (floats.median s);
        p99_us = floats.us (floats.of_int (pct s 99));
        min_us = floats.us (floats.of_int (get_or s 0 0));
        max_us = floats.us (floats.of_int (get_or s (n - 1) 0));
        jitter_us = (if ltb 1 n then floats.us (floats.pstdev s) else floats.zero_f);
      })
      else raise value_error

  module _ {W R Text : Type 0} (perf : W → W × ℕ) (draws : Draws R)
      (inet_aton : Text → Result Bytes) (test_c2_set : List Text) where
    -- `main` up to the report; `n_hits` is `round(count * hit_fraction)`, and the clock of the
    -- throughput is left out.
    unfoldable pub main : ℕ → ℕ → ℕ → ℕ → W → Result (W × LatencyStats F)
    main fuel count n_hits seed w = do
      bloom ← from_ips inet_aton test_c2_set
      headers ← make_workload draws inet_aton test_c2_set fuel count n_hits seed
      (w1, samples) ← run_cpu perf w headers bloom
      cpu ← latency_stats samples
      ok (w1, cpu)
