-- ===== src/Tests/Sources.antt =====
-- Instances for demo/scenarios.py.
use fpga_pi_parallel_nids.Prelude.{
  ℕ, ◌+◌, ◌≡◌, refl, true, false, List, [], ◌∷◌, none, some, ok, ◌>>=◌, ltb, arith, length,
}
use fpga_pi_parallel_nids.Prelude.Bytes.{Bytes}
use fpga_pi_parallel_nids.Bloom.{member}
use fpga_pi_parallel_nids.Classifier.{Header, Classifier, parse, classify}
use fpga_pi_parallel_nids.Classifier.Verdicts.{decoded}
use fpga_pi_parallel_nids.Clock.{Clock}
use fpga_pi_parallel_nids.ScanRate
use fpga_pi_parallel_nids.Thresholds
use fpga_pi_parallel_nids.Verdict.{Verdict}
use fpga_pi_parallel_nids.Traffic.{has, c2_ips, Random, Benign, Beacon, next_benign, next_c2}
use fpga_pi_parallel_nids.Traffic.Sources.{IsFair, c2_filter, next_benign-clean, next_c2-classify}

abbrev first_of : List ℕ → ℕ
first_of [] = 0
first_of (x ∷ xs) = x

-- A generator of numbers that always draws the first.
abbrev pub dice : Random ℕ
dice = record {
  seeded = λ n. n;
  choice = λ r xs. (r + 1, first_of xs);
  randint = λ r a b. (r + 1, a);
}

pub dice-IsFair : IsFair dice
unfolding has
dice-IsFair = record {
  choice_member = λ r x xs. ground arith;
  randint_least = λ r a b h. omega arith;
  randint_most = λ r a b h. h;
}

abbrev traffic : Benign ℕ
traffic = record { rng = 0; emitted = 0; count = some 2 }

next_benign-clean_example :
    (frame : Bytes) × (g1 : Benign ℕ) × (h : Header) × (next_benign dice 1 traffic
      ≡ some (ok (some (frame, g1))))
    × (g1.emitted ≡ traffic.emitted + 1)
    × (g1.count ≡ traffic.count)
    × (length frame ≡ 32)
    × (parse frame ≡ ok h)
    × (has c2_ips h.src_ip ≡ false)
    × (h.proto ≡ 17)
    × (h.flags ≡ 0)
    × (member c2_filter h.src_ip ≡ false)
    × (member c2_filter h.dst_ip ≡ false)
next_benign-clean_example = next_benign-clean dice dice-IsFair 0 traffic refl

abbrev beacon : Beacon ℕ
beacon = record { rng = 0; emitted = 1; count = none; dst_ip = 0x0A000020 }

next_c2-classify_example :
    (frame : Bytes) × (g1 : Beacon ℕ) × (after : Classifier) × (v : Verdict) × (next_c2 dice beacon
      ≡ ok (some (frame, g1)))
    × (g1.emitted ≡ beacon.emitted + 1)
    × (g1.count ≡ beacon.count)
    × (length frame ≡ 32)
    × ((classify (record { bloom = c2_filter; table = ScanRate.init Thresholds.init }) frame 1 0
          >>= decoded)
        ≡ ok (after, v))
    × (v.bloom_hit ≡ true)
    × (v.severity ≡ 3)
    × (v.escalate ≡ true)
next_c2-classify_example = next_c2-classify dice beacon (ScanRate.init Thresholds.init) 1 0 refl

-- A clock that stands still, and a generator that never ends.
abbrev pub still : Clock (Unit {0}) ℕ
still = record {
  zero_s = 0;
  add = λ a b. a + b;
  sub = λ a b. a;
  inverse = λ t. t;
  before = ltb;
  monotonic = λ w. (w, 7);
  sleep = λ t w. w;
}
