-- ===== src/Viz/Alone.antt =====
-- viz.py: the verdict of a header on a fresh table.
use fpga_pi_parallel_nids.Prelude.{
  ℕ, ◌*◌, ◌%◌, ◌^◌, ◌≤◌, bit_or, ◌≡◌, refl, ap, ◌∙◌, inl, inr, Bool, true, false, Bool-cases, ◌||◌,
  Result, ok, raise, ◌>>=◌, arith, if◌then◌else◌, length, get_or-replicate,
}
use fpga_pi_parallel_nids.Prelude.Bits.{popcount, popcount-bit_or, popcount-zero}
use fpga_pi_parallel_nids.Prelude.Bytes.{Bytes}
use fpga_pi_parallel_nids.Benchmark.Counts.{touches}
use fpga_pi_parallel_nids.Bloom.{BloomFilter, member}
use fpga_pi_parallel_nids.Classifier
use fpga_pi_parallel_nids.Classifier.{
  Header, Classifier, packet_of, parse, classify, classify_header,
}
use fpga_pi_parallel_nids.Classifier.Verdicts.{
  expected, decoded, parse_total, classify-decode_verdict,
}
use fpga_pi_parallel_nids.ScanRate
use fpga_pi_parallel_nids.ScanRate.{
  Entry, Packet, bucket, port_bit, host_bit, blank, entry_after, entry_at, port_scan_hit, rate_hit,
}
use fpga_pi_parallel_nids.Thresholds
use fpga_pi_parallel_nids.Verdict.{Verdict, decode_verdict}

pub one_bit : (k : ℕ) → popcount (bit_or 0 (1 * 2 ^ k)) ≤ 1
one_bit k =
    let e : 1 * 2 ^ k ≡ 2 ^ k = omega arith in
    rw e (omega (arith, popcount-bit_or 0 k, popcount-zero))

-- The first packet of a fresh table trips no detector.
pub fresh_entry : (b : ℕ) → entry_at (ScanRate.init Thresholds.init) b ≡ blank 0
fresh_entry b = unfold ScanRate.init in get_or-replicate 256 b (blank 0)

pub default_thresholds :
    let th = (ScanRate.init Thresholds.init).thresholds in
    (Thresholds.read th Thresholds.port_thresh ≡ 5)
    × (Thresholds.read th Thresholds.host_thresh ≡ 5)
    × (Thresholds.read th Thresholds.rate_thresh ≡ 8)
unfolding ScanRate.init Thresholds.read Thresholds.init
default_thresholds = (refl, refl, refl)

pub fresh_hits :
    (p : Packet)
    → p.frame_count ≡ 0
    → (ScanRate.update (ScanRate.init Thresholds.init) p).1 ≡ (false, false)
unfolding ScanRate.update port_scan_hit rate_hit entry_after ScanRate.epoch
fresh_hits p start =
    rw (fresh_entry (bucket p.src_ip), start)
      (ground (
        arith,
        default_thresholds,
        one_bit (port_bit p.dst_port),
        one_bit (host_bit p.dst_ip),
        popcount-zero,
      ))

-- The verdict on a fresh table: the filter alone decides.
abbrev pub alone : Bool → ℕ → Verdict
alone hit i = record {
  valid = true;
  bloom_hit = hit;
  port_scan_hit = false;
  rate_anomaly_hit = false;
  rule_match_hit = false;
  severity = (if hit then 3 else 0);
  escalate = hit;
  seq = i % 256;
}

pub peel :
    (k c : Classifier) (v : Verdict) (d : Result Verdict)
    → ◌>>=◌ {B = Classifier × Verdict} d (λ u. ok (k, u)) ≡ ok (c, v)
    → d ≡ ok v
peel k c v (ok u) same = cc
peel k c v (raise e) same = absurd cc

pub decoded_frame :
    (r : Result (Classifier × Bytes)) (c : Classifier) (v : Verdict)
    → (r >>= decoded) ≡ ok (c, v)
    → (frame : Bytes) × ((r >>= λ k. ok k.1) ≡ ok frame) × (decode_verdict frame ≡ ok v)
decoded_frame (raise e) c v same = absurd cc
decoded_frame (ok (k, frame)) c v same = (frame, refl, peel k c v (decode_verdict frame) same)

pub expected-alone :
    (bloom : BloomFilter) (h : Header) (i : ℕ)
    → expected (Classifier.init bloom Thresholds.init) h i 0
      ≡ alone (member bloom h.src_ip || member bloom h.dst_ip) i
unfolding Classifier.init
expected-alone bloom h i = elim (Bool-cases (member bloom h.src_ip || member bloom h.dst_ip)) [
  | inl hit ↦ rw (fresh_hits (packet_of h 0) refl, hit)
  | inr miss ↦ rw (fresh_hits (packet_of h 0) refl, miss)
]

pub classify_header_lem :
    (bloom : BloomFilter) (header : Bytes) (i : ℕ)
    → length header ≡ 32
    → (frame : Bytes) × (classify_header header bloom i ≡ ok frame)
      × (decode_verdict frame ≡ ok (alone (touches bloom header) i))
unfolding classify_header
classify_header_lem bloom header i full = elim (parse_total header) [
  | inr (short, failed) ↦ absurd (omega arith)
  | inl (enough, (h, e)) ↦
      let c = Classifier.init bloom Thresholds.init in
      let v = expected c h i 0 in
      let (frame, made, read) =
        decoded_frame (classify c header i 0)
          (record c { table = (ScanRate.update c.table (packet_of h 0)).0 }) v
          (rw (classify-decode_verdict c header i 0, e)) in
      (frame, made, rw e (read ∙ ap ok (expected-alone bloom h i)))
]

-- The tallies of one verdict of that kind.
