-- ===== src/Benchmark/Summary.antt =====
-- benchmark.py: when the benchmark returns, and the order of its latencies.
use native.Mathlib.Decide.{dec_lt}
use fpga_pi_parallel_nids.Prelude.{
  bit_and, ℕ, suc, ◌+◌, ◌-◌, ◌≤◌, ◌<◌, min, ◌≡◌, refl, sym, ap, ◌∙◌, ◌⊎◌, inl, inr, true, List, [],
  ◌∷◌, Result, ok, raise, value_error, ◌>>=◌, arith, ltb, if◌then◌else◌, length, get_or, All,
  Result-cases,
}
use fpga_pi_parallel_nids.Prelude.Bytes.{Bytes}
use fpga_pi_parallel_nids.Bloom.{init, add_all}
use fpga_pi_parallel_nids.Classifier
use fpga_pi_parallel_nids.Classifier.{Classifier, classify}
use fpga_pi_parallel_nids.Classifier.Verdicts.{
  decoded, after_header, parse_total, classify-decode_verdict,
}
use fpga_pi_parallel_nids.Thresholds
use fpga_pi_parallel_nids.Benchmark.{Draws, ints_of, samples_from, run_cpu}
use fpga_pi_parallel_nids.Benchmark.Workload.{AreFair, Misses, make_workload_total}
use fpga_pi_parallel_nids.Benchmark.Counts.{all_full}
use fpga_pi_parallel_nids.Benchmark.Listed.{GivesBytes, from_ips_lem}
use fpga_pi_parallel_nids.Benchmark.Latency.{Floats, sorted, LatencyStats, pct, latency_stats, main}
use fpga_pi_parallel_nids.Benchmark.Sorted.{
  occurs, sorted-IsSorted, occurs-sorted, length-sorted, get_or_mono, occurs-get_or, index_of,
}

module _ {F : Type 0} (floats : Floats F) where
  -- The reported latencies are those of the run and stand in order: for any samples, one at least,
  -- whatever the rounding of `rank`, the summary counts them, and its minimum, 99th percentile and
  -- maximum are samples, the first the least of all, the last the greatest, the other between.
  pub latency_stats_bounds :
      (samples : List ℕ)
      → 0 < length samples
      → (st : LatencyStats F) × (lo : ℕ) × (p : ℕ) × (hi : ℕ) × (latency_stats floats samples
          ≡ ok st)
        × (st.count ≡ length samples)
        × (st.min_us ≡ floats.us (floats.of_int lo))
        × (st.p99_us ≡ floats.us (floats.of_int p))
        × (st.max_us ≡ floats.us (floats.of_int hi))
        × (lo ≤ p)
        × (p ≤ hi)
        × (0 < occurs lo samples)
        × (0 < occurs p samples)
        × (0 < occurs hi samples)
        × ((x : ℕ) → 0 < occurs x samples → (lo ≤ x) × (x ≤ hi))
  unfolding latency_stats pct
  latency_stats_bounds samples there =
      let s = sorted samples in
      let many = length-sorted samples in
      let order = sorted-IsSorted samples in
      let k = min (length s - 1) (floats.rank 99 (length s) - 1) in
      let last = length s - 1 in
      let shown : (i : ℕ) → i < length s → 0 < occurs (get_or s i 0) samples =
        λ i lt. omega (arith, occurs-get_or s i lt, occurs-sorted (get_or s i 0) samples) in
      (
        record {
          count = length s;
          mean_us = floats.us (floats.fmean s);
          median_us = floats.us (floats.median s);
          p99_us = floats.us (floats.of_int (get_or s k 0));
          min_us = floats.us (floats.of_int (get_or s 0 0));
          max_us = floats.us (floats.of_int (get_or s last 0));
          jitter_us = (if ltb 1 (length s) then floats.us (floats.pstdev s) else floats.zero_f);
        },
        get_or s 0 0,
        get_or s k 0,
        get_or s last 0,
        (let some_there : ltb 0 (length s) ≡ true = ground (arith, many, there) in rw some_there),
        many,
        refl,
        refl,
        refl,
        get_or_mono s 0 k order (omega arith) (omega (arith, many)),
        get_or_mono s k last order (omega arith) (omega (arith, many)),
        shown 0 (omega (arith, many)),
        shown k (omega (arith, many)),
        shown last (omega (arith, many)),
        λ x inside.
            let (i, lt, e) = index_of x s (omega (arith, inside, occurs-sorted x samples)) in
            (
              omega (arith, get_or_mono s 0 i order (omega arith) lt, e),
              omega (arith, get_or_mono s i last order (omega arith) (omega arith), e),
            ),
      )

  no_samples :
      {W : Type 0} (w : W) (samples : List ℕ)
      → length samples ≡ 0
      → ◌>>=◌ {B = W × LatencyStats F} (latency_stats floats samples) (λ cpu. ok (w, cpu))
        ≡ raise value_error
  unfolding latency_stats sorted
  no_samples w [] e = refl
  no_samples w (x ∷ xs) e = absurd (omega arith)

module _ {W : Type 0} (perf : W → W × ℕ) where
  -- Full frames are classified whatever the state is.
  classify_total :
      (clf : Classifier) (h : Bytes) (seq n : ℕ)
      → length h ≡ 32
      → (clf1 : Classifier) × (frame : Bytes) × (classify clf h seq n ≡ ok (clf1, frame))
  classify_total clf h seq n full = elim (parse_total h) [
    | inr (short, failed) ↦ absurd (omega arith)
    | inl (enough, (header, e)) ↦
        let both : (classify clf h seq n >>= decoded) ≡ after_header clf seq n header =
          rw (classify-decode_verdict clf h seq n, e) in
        elim (Result-cases (classify clf h seq n)) [
          | inl ((clf1, frame), done) ↦ (clf1, frame, done)
          | inr (err, failed) ↦ absurd (ground (arith, both, failed))
        ]
  ]

  samples_from_total :
      (headers : List Bytes) (w : W) (clf : Classifier) (i : ℕ)
      → All (λ h. length h ≡ 32) headers
      → (w1 : W) × (samples : List ℕ) × (samples_from perf w clf i headers ≡ ok (w1, samples))
        × (length samples ≡ length headers)
  unfolding samples_from
  samples_from_total [] w clf i full = (w, [], refl, refl)
  samples_from_total (h ∷ headers) w clf i (here, full) =
      let (w1, t0) = perf w in
      let (clf1, frame, done) = classify_total clf h (bit_and i 0xFF + 1) i here in
      let (w2, t1) = perf w1 in
      let (w3, samples, rest, many) = samples_from_total headers w2 clf1 (i + 1) full in
      (w3, (t1 - t0) ∷ samples, rw (done, rest), ap suc many)

  module _ {R Text F : Type 0} (floats : Floats F) (draws : Draws R) (fair : AreFair draws)
      (inet_aton : Text → Result Bytes) (test_c2_set : List Text) where
    -- The benchmark comes to its summary: with a random source that keeps its documented ranges,
    -- shuffles to a permutation and draws an address outside the filter within every `fuel` calls,
    -- for a list of texts that read as one address at least, every positive count gives a summary
    -- of as many latencies; a count of 0 raises a ValueError.
    pub benchmark_total :
        (fuel count n_hits seed c : ℕ) (cs : List ℕ) (w : W)
        → GivesBytes inet_aton
        → ints_of inet_aton test_c2_set ≡ ok (c ∷ cs)
        → Misses draws fuel (add_all init (c ∷ cs))
        → ((count ≡ 0)
            × (main floats perf draws inet_aton test_c2_set fuel count n_hits seed w
                ≡ raise value_error))
          ⊎ ((0 < count)
              × ((w1 : W) × (st : LatencyStats F) × (main floats perf draws inet_aton test_c2_set
                      fuel count n_hits seed w
                    ≡ ok (w1, st))
                  × (st.count ≡ count)))
    unfolding main run_cpu
    benchmark_total fuel count n_hits seed c cs w gives e misses =
        let (headers, made, len, full, hits) =
          make_workload_total draws fair inet_aton test_c2_set fuel count n_hits seed c cs gives e
            misses in
        let (w1, samples, ran, many) =
          samples_from_total headers w (Classifier.init (add_all init (c ∷ cs)) Thresholds.init) 0
            (all_full headers (full ∙ sym len)) in
        elim (dec_lt 0 count) [
          | yes more ↦
              let (st, _, _, _, reported, counted, _, _, _, _, _, _, _, _, _) =
                latency_stats_bounds floats samples (omega (arith, many, len)) in
              inr (
                more,
                (
                  w1,
                  st,
                  rw (from_ips_lem inet_aton test_c2_set (c ∷ cs) e, made, ran, reported),
                  omega (arith, counted, many, len),
                ),
              )
          | no none_left ↦ inl (
            omega (arith, none_left),
            rw (from_ips_lem inet_aton test_c2_set (c ∷ cs) e, made, ran)
                (no_samples floats w1 samples (omega (arith, none_left, many, len))),
          )
        ]
