-- ===== src/Classifier/Verdicts.antt =====
-- classifier.py: what the verdict of a header says.
use fpga_pi_parallel_nids.Prelude.{
  ℕ, ◌%◌, ◌≤◌, ◌<◌, max, ◌≡◌, Bool, true, false, ◌||◌, Result, ok, raise, struct_error, ◌>>=◌,
  arith, lt→ltb, ◌==◌, if◌then◌else◌, length, take, length-take, Result-cases, Bool-cases, ◌≢◌, ◌⊎◌,
  inl, inr,
}
use fpga_pi_parallel_nids.Prelude.Bytes.{Bytes}
use fpga_pi_parallel_nids.Bloom.{member}
use fpga_pi_parallel_nids.ScanRate
use fpga_pi_parallel_nids.Verdict.{Verdict, encode_verdict, decode_verdict}
use fpga_pi_parallel_nids.Verdict.Frame.{encode_verdict-frame, decode_verdict-frame}
use fpga_pi_parallel_nids.Classifier.{
  Header, Classifier, fields_of, unpack, parse, packet_of, classify_parsed, classify,
}

-- The severity is 3 for a hit in the filter, else 2 for one of the two detectors, else 0.
abbrev pub severity_of : Bool → Bool → Bool → ℕ
severity_of true scan rate = 3
severity_of false true rate = 2
severity_of false false true = 2
severity_of false false false = 0

-- The verdict that a header deserves in a given state.
abbrev pub expected : Classifier → Header → ℕ → ℕ → Verdict
expected c h seq frame_count =
    let bloom = member c.bloom h.src_ip || member c.bloom h.dst_ip in
    let hits = (ScanRate.update c.table (packet_of h frame_count)).1 in
    record {
      valid = true;
      bloom_hit = bloom;
      port_scan_hit = hits.0;
      rate_anomaly_hit = hits.1;
      rule_match_hit = false;
      severity = severity_of bloom hits.0 hits.1;
      escalate = bloom || (hits.0 || hits.1);
      seq = seq % 256;
    }

-- The verdict in the frame of a result, beside the new state.
abbrev pub decoded : Classifier × Bytes → Result (Classifier × Verdict)
decoded r = decode_verdict r.1 >>= λ v. ok (r.0, v)

abbrev pub after_header : Classifier → ℕ → ℕ → Header → Result (Classifier × Verdict)
after_header c seq n h =
    ok (record c { table = (ScanRate.update c.table (packet_of h n)).0 }, expected c h seq n)

severity_lem :
    (b s r : Bool)
    → max (max (if b then 3 else 0) (if s then 2 else 0)) (if r then 2 else 0) ≡ severity_of b s r
severity_lem b s r = ground arith

severity_of-lt : (b s r : Bool) → severity_of b s r < 256
severity_of-lt b s r = ground arith

-- The frame of three flags decodes to the verdict of these flags.
decoded_flags :
    (k : Classifier) (b s r : Bool) (seq : ℕ)
    → ((encode_verdict b s r false (severity_of b s r) (b || (s || r)) seq >>= λ frame.
          ok (k, frame))
        >>= decoded)
      ≡ ok (
        k,
        record {
          valid = true;
          bloom_hit = b;
          port_scan_hit = s;
          rate_anomaly_hit = r;
          rule_match_hit = false;
          severity = severity_of b s r;
          escalate = b || (s || r);
          seq = seq % 256;
        },
      )
decoded_flags k b s r seq = rw (
  encode_verdict-frame b s r false (severity_of b s r) (b || (s || r)) seq,
  lt→ltb _ _ (severity_of-lt b s r),
  decode_verdict-frame b s r false (severity_of b s r) (b || (s || r)) seq,
)

classify_parsed-decoded :
    (c : Classifier) (h : Header) (seq n : ℕ)
    → (classify_parsed c h seq n >>= decoded) ≡ after_header c seq n h
unfolding classify_parsed
classify_parsed-decoded c h seq n =
    rw
      (severity_lem (member c.bloom h.src_ip || member c.bloom h.dst_ip)
        (ScanRate.update c.table (packet_of h n)).1.0 (ScanRate.update c.table (packet_of h n)).1.1)
      (decoded_flags _ _ _ _ seq)

-- Classifying any bytes raises what parsing them raises; otherwise the new state has the updated
-- table and the same filter, and the frame decodes to the verdict that the header deserves, with
-- the sequence number modulo 256. The encoder never refuses the severity.
pub classify-decode_verdict :
    (c : Classifier) (header : Bytes) (seq frame_count : ℕ)
    → (classify c header seq frame_count >>= decoded)
      ≡ (parse header >>= after_header c seq frame_count)
unfolding classify
classify-decode_verdict c header seq n = elim (Result-cases (parse header)) [
  | inl (h, e) ↦ rw e (classify_parsed-decoded c h seq n)
  | inr (x, e) ↦ rw e
]

unpack_ok : (first : Bytes) → (length first == 16) ≡ true → (h : Header) × (unpack first ≡ ok h)
unfolding unpack
unpack_ok first e = (fields_of first, rw e)

unpack_total :
    (first : Bytes)
    → ((length first ≡ 16) × ((h : Header) × (unpack first ≡ ok h)))
      ⊎ ((length first ≢ 16) × (unpack first ≡ raise struct_error))
unfolding unpack
unpack_total first = elim (Bool-cases (length first == 16)) [
  | inl e ↦ inl (ground arith, unpack_ok first e)
  | inr e ↦ inr (ground arith, rw e)
]

-- Parsing gives a header exactly when there are 16 bytes at least, and raises struct.error
-- otherwise.
pub parse_total :
    (header : Bytes)
    → ((16 ≤ length header) × ((h : Header) × (parse header ≡ ok h)))
      ⊎ ((length header < 16) × (parse header ≡ raise struct_error))
unfolding parse
parse_total header = elim (unpack_total (take 16 header)) [
  | inl (e, found) ↦ inl (omega (arith, length-take 16 header), found)
  | inr (e, failed) ↦ inr (omega (arith, length-take 16 header), failed)
]
