-- ===== src/Tests/Replays.antt =====
-- Instances for benchmark.py, viz.py and spi_ber_ramp.py.
use mathlib.Core.Path.{subst}
use mathlib.Core.List.Perm
use fpga_pi_parallel_nids.Prelude.{
  ℕ, zero, suc, ◌+◌, ◌-◌, ◌/◌, ◌*◌, ◌%◌, ◌^◌, ◌≤◌, ◌<◌, min, ◌≡◌, refl, ◌⊎◌, true, List, [], ◌∷◌,
  Option, Result, ok, raise, value_error, arith, ltb, if◌then◌else◌, length, count_of, All,
}
use fpga_pi_parallel_nids.Prelude.Bytes.{Bytes, IsByte, be_digits-IsByte, be_digits, zeros}
use fpga_pi_parallel_nids.Bloom.{init, member, add_all, get_bit, add, set_bit, h1, h2, ip_to_int}
use fpga_pi_parallel_nids.Benchmark.{Draws, ints_of, make_workload}
use fpga_pi_parallel_nids.Benchmark.Counts.{is_full, touches}
use fpga_pi_parallel_nids.Benchmark.Listed.{GivesBytes}
use fpga_pi_parallel_nids.Benchmark.Workload.{AreFair, Misses, drawn, make_workload_total}
use fpga_pi_parallel_nids.Benchmark.Latency.{Floats, LatencyStats, latency_stats, main}
use fpga_pi_parallel_nids.Benchmark.Sorted.{occurs}
use fpga_pi_parallel_nids.Benchmark.Summary.{latency_stats_bounds, benchmark_total}
use fpga_pi_parallel_nids.Ber.Ramp.{Step, ramp}
use fpga_pi_parallel_nids.Ber.Ramp.Ceiling.{ramp_total}
use fpga_pi_parallel_nids.Ber.Ramp.Highest.{IsHighest, clocks_of}
use fpga_pi_parallel_nids.Viz.Runner.{Line, run_replay}
use fpga_pi_parallel_nids.Viz.Counted.{is_packet, is_summary, run_replay_total}
use fpga_pi_parallel_nids.Tests.Sources.{dice, dice-IsFair, still}

-- Draws of the number 5, or of 0 where that is too large, heads, and the list as it is.
abbrev draws : Draws ℕ
draws = record {
  random = dice;
  getrandbits = λ r k. (r + 1, 5 % 2 ^ k);
  coin = λ r. (r, true);
  shuffle = λ r xs. (r, xs);
}

power_least : (k : ℕ) → 0 < 2 ^ k
power_least zero = omega arith
power_least (suc k) = omega (arith, power_least k)

small_draw : (k : ℕ) → 5 % 2 ^ k < 2 ^ k
small_draw k = omega (arith, power_least k)

draws-AreFair : AreFair draws
draws-AreFair = record {
  picks = dice-IsFair;
  bits_lt = λ r k. small_draw k;
  shuffle_perm = λ r xs. Perm.refl xs;
}

-- Addresses as numbers.
abbrev aton : ℕ → Result Bytes
aton ip = ok (be_digits 4 ip)

aton_gives : GivesBytes aton
aton_gives ip packed e =
    let same : be_digits 4 ip ≡ packed = cc e in
    subst (λ p. All IsByte p) same (be_digits-IsByte 4 ip)

abbrev listed : List ℕ
listed = 0xCB007105 ∷ []

draws_miss : Misses draws 1 (add_all init listed)
unfolding drawn member get_bit add_all add set_bit init h1 h2
draws_miss r = (0, omega arith, refl)

make_workload_total_example :
    (headers : List Bytes) × (make_workload draws aton listed 1 3 1 42 ≡ ok headers)
    × (length headers ≡ 3)
    × (count_of is_full headers ≡ 3)
    × (count_of (touches (add_all init listed)) headers ≡ min 1 3)
unfolding ints_of ip_to_int
make_workload_total_example =
    make_workload_total draws draws-AreFair aton listed 1 3 1 42 0xCB007105 [] aton_gives refl
      draws_miss

run_replay_total_example :
    (w1 : Unit {0}) × (lines : List (Line ℕ)) × (run_replay still draws aton listed 1 21 2 42 true 5
        tt
      ≡ ok (
        w1,
        (
          record {
            total = 21;
            clean = 21 - 2;
            flagged = min 2 21;
            bloom = min 2 21;
            escalations = min 2 21;
          },
          lines,
        ),
      ))
    × (count_of is_packet lines ≡ 21)
    × (count_of is_summary lines ≡ 21 / 20)
unfolding ints_of ip_to_int
run_replay_total_example =
    run_replay_total still draws draws-AreFair aton listed 1 21 2 42 0xCB007105 [] true 5 tt
      aton_gives refl draws_miss

-- Results as the lists that they come from.
abbrev shown_floats : Floats (List ℕ)
shown_floats = record {
  us = λ f. f;
  of_int = λ n. n ∷ [];
  zero_f = [];
  rank = λ q n. (q * n + 99) / 100;
  fmean = λ xs. xs;
  median = λ xs. xs;
  pstdev = λ xs. xs;
}

latency_stats_bounds_example :
    (st : LatencyStats (List ℕ)) × (lo : ℕ) × (p : ℕ) × (hi : ℕ) × (latency_stats shown_floats
        (30 ∷ 10 ∷ 20 ∷ [])
      ≡ ok st)
    × (st.count ≡ 3)
    × (st.min_us ≡ lo ∷ [])
    × (st.p99_us ≡ p ∷ [])
    × (st.max_us ≡ hi ∷ [])
    × (lo ≤ p)
    × (p ≤ hi)
    × (0 < occurs lo (30 ∷ 10 ∷ 20 ∷ []))
    × (0 < occurs p (30 ∷ 10 ∷ 20 ∷ []))
    × (0 < occurs hi (30 ∷ 10 ∷ 20 ∷ []))
    × ((x : ℕ) → 0 < occurs x (30 ∷ 10 ∷ 20 ∷ []) → (lo ≤ x) × (x ≤ hi))
latency_stats_bounds_example = latency_stats_bounds shown_floats (30 ∷ 10 ∷ 20 ∷ []) (omega arith)

-- A counter that is read as the time.
abbrev perf : ℕ → ℕ × ℕ
perf w = (w + 7, w)

benchmark_total_example :
    ((◌≡◌ {A = ℕ} 2 0) × (main shown_floats perf draws aton listed 1 2 1 42 0 ≡ raise value_error))
    ⊎ ((0 < 2)
        × ((w1 : ℕ) × (st : LatencyStats (List ℕ)) × (main shown_floats perf draws aton listed 1 2 1
                42 0
              ≡ ok (w1, st))
            × (st.count ≡ 2)))
unfolding ints_of ip_to_int
benchmark_total_example =
    benchmark_total perf shown_floats draws draws-AreFair aton listed 1 2 1 42 0xCB007105 [] 0
      aton_gives refl draws_miss

-- A link that fails above 2 MHz: it answers with the frame before, and with zeros there.
abbrev failing : ℕ → Bytes → Bytes → Bytes × Bytes
failing hz w f = (f, if ltb 2000000 hz then zeros 32 else w)

ramp_total_example :
    (w1 : Bytes) × (steps : List Step) × (highest : Option ℕ) × (ramp
        (λ n. n)
        (λ r k. (r + 1, 5))
        failing
        4
        42
        (1 ∷ 2 ∷ 3 ∷ [])
        []
      ≡ ok (w1, (steps, highest)))
    × (clocks_of steps ≡ 1 ∷ 2 ∷ 3 ∷ [])
    × All (λ s. s.1.frames_compared ≡ 3) steps
    × IsHighest highest steps
ramp_total_example =
    ramp_total (λ n. n) (λ r k. (r + 1, 5)) failing 4 42 (1 ∷ 2 ∷ 3 ∷ []) []
      ((omega arith, (omega arith, tt)), ((omega arith, tt), (tt, tt)))
