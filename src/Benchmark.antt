-- ===== src/Benchmark.antt =====
-- benchmark.py: the synthetic workload, the timed run of the classifier and the summary of its
-- latencies. random.Random, time.perf_counter_ns and the floating-point results are parameters.
pub mod Counts
pub mod Listed
pub mod Workload
pub mod Latency
pub mod Sorted
pub mod Summary
use fpga_pi_parallel_nids.Prelude.{
  ℕ, zero, suc, ◌+◌, ◌-◌, bit_and, Bool, List, [], ◌∷◌, ◌++◌, Result, ok, raise, out_of_fuel, ◌>>=◌,
  ltb, if◌then◌else◌,
}
use fpga_pi_parallel_nids.Prelude.Bytes.{Bytes, zeros}
use fpga_pi_parallel_nids.Bloom.{BloomFilter, member, from_ips, ip_to_int}
use fpga_pi_parallel_nids.Classifier
use fpga_pi_parallel_nids.Classifier.{Classifier, classify}
use fpga_pi_parallel_nids.Frames.{pack_field}
use fpga_pi_parallel_nids.Thresholds
use fpga_pi_parallel_nids.Traffic.{Random}

-- What the workload uses of random.Random beside `choice` and `randint`: `getrandbits(k)`, the test
-- `random() < 0.5`, and `shuffle`.
pub record Draws (R : Type 0) : Type 0 where
  pub random : Random R
  pub getrandbits : R → ℕ → R × ℕ
  pub coin : R → R × Bool
  pub shuffle : R → List Bytes → R × List Bytes

-- `[ip_to_int(ip) for ip in ips]`
unfoldable pub ints_of : {Text : Type 0} → (Text → Result Bytes) → List Text → Result (List ℕ)
ints_of inet_aton [] = ok []
ints_of inet_aton (ip ∷ ips) = do
  x ← ip_to_int inet_aton ip
  xs ← ints_of inet_aton ips
  ok (x ∷ xs)

module _ {R : Type 0} (draws : Draws R) where
  unfoldable pub pack : R → ℕ → ℕ → Result (R × Bytes)
  pack rng src_int dst_int = do
    src ← pack_field 4 src_int
    dst ← pack_field 4 dst_int
    let (rng1, sport) = draws.random.randint rng 1 65535
    let (rng2, dport) = draws.random.randint rng1 1 65535
    let (rng3, proto) = draws.random.choice rng2 (6 ∷ 17 ∷ 1 ∷ [])
    let (rng4, flags) = draws.random.randint rng3 0 255
    let (rng5, size) = draws.random.randint rng4 40 1500
    a ← pack_field 2 sport
    b ← pack_field 2 dport
    c ← pack_field 1 proto
    d ← pack_field 1 flags
    e ← pack_field 2 size
    f ← pack_field 4 0
    ok (rng5, (src ++ dst) ++ ((a ++ (b ++ (c ++ (d ++ (e ++ f))))) ++ zeros 12))

  -- The turns of `while True`.
  unfoldable pub random_clean_ip : ℕ → R → BloomFilter → Result (R × ℕ)
  random_clean_ip zero rng bloom = raise out_of_fuel
  random_clean_ip (suc fuel) rng bloom =
      let (rng1, x) = draws.getrandbits rng 32 in
      let again = random_clean_ip fuel rng1 bloom in if member bloom x then again else ok (rng1, x)

  -- The two addresses of a header with a listed one, and of one without.
  unfoldable pub hit_pair : ℕ → R → BloomFilter → List ℕ → Result (R × (ℕ × ℕ))
  hit_pair fuel rng bloom c2_ints = do
    let (rng1, c2) = draws.random.choice rng c2_ints
    (rng2, other) ← random_clean_ip fuel rng1 bloom
    let (rng3, heads) = draws.coin rng2
    ok (rng3, (if heads then (c2, other) else (other, c2)))

  unfoldable pub clean_pair : ℕ → R → BloomFilter → Result (R × (ℕ × ℕ))
  clean_pair fuel rng bloom = do
    (rng1, src) ← random_clean_ip fuel rng bloom
    (rng2, dst) ← random_clean_ip fuel rng1 bloom
    ok (rng2, (src, dst))

  -- The `n` turns of the loop from `i`.
  unfoldable pub headers_from : ℕ → R → BloomFilter → List ℕ → ℕ → ℕ → ℕ → Result (R × List Bytes)
  headers_from fuel rng bloom c2_ints zero i n_hits = ok (rng, [])
  headers_from fuel rng bloom c2_ints (suc n) i n_hits = do
    (rng1, ends) ←
        if ltb i n_hits then hit_pair fuel rng bloom c2_ints else clean_pair fuel rng bloom
    (rng2, header) ← pack rng1 ends.0 ends.1
    (rng3, headers) ← headers_from fuel rng2 bloom c2_ints n (i + 1) n_hits
    ok (rng3, header ∷ headers)

  module _ {Text : Type 0} (inet_aton : Text → Result Bytes) (test_c2_set : List Text) where
    -- `n_hits` is `round(n * hit_fraction)`.
    unfoldable pub make_workload : ℕ → ℕ → ℕ → ℕ → Result (List Bytes)
    make_workload fuel n n_hits seed = do
      let rng = draws.random.seeded seed
      bloom ← from_ips inet_aton test_c2_set
      c2_ints ← ints_of inet_aton test_c2_set
      (rng1, headers) ← headers_from fuel rng bloom c2_ints n 0 n_hits
      ok (draws.shuffle rng1 headers).1

-- `perf` is time.perf_counter_ns, whose readings never go down. The samples of the headers from `i` on.
module _ {W : Type 0} (perf : W → W × ℕ) where
  unfoldable pub samples_from : W → Classifier → ℕ → List Bytes → Result (W × List ℕ)
  samples_from w clf i [] = ok (w, [])
  samples_from w clf i (h ∷ headers) = do
    let (w1, t0) = perf w
    (clf1, _) ← classify clf h (bit_and i 0xFF + 1) i
    let (w2, t1) = perf w1
    (w3, samples) ← samples_from w2 clf1 (i + 1) headers
    ok (w3, (t1 - t0) ∷ samples)

  unfoldable pub run_cpu : W → List Bytes → BloomFilter → Result (W × List ℕ)
  run_cpu w headers bloom = samples_from w (Classifier.init bloom Thresholds.init) 0 headers
