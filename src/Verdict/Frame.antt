-- ===== src/Verdict/Frame.antt =====
-- verdict.py: what a verdict frame carries, and that decoding reads it back.
use fpga_pi_parallel_nids.Prelude.{
  ℕ, ◌+◌, ◌*◌, ◌%◌, ◌≡◌, ◌↔◌, ◌⊎◌, ◌≢◌, Bool, true, false, ◌||◌, ◌∷◌, ok, raise, value_error, ◌>>=◌,
  arith, ltb, if◌then◌else◌, length,
}
use fpga_pi_parallel_nids.Prelude.Bits.{bit_and_mask}
use fpga_pi_parallel_nids.Prelude.Bytes.{Bytes, to_int, zeros}
use fpga_pi_parallel_nids.Verdict.{
  Verdict, verdict_magic, encode_verdict, decode_verdict, describe, clean_at,
}

-- The frame of PROTOCOL.md, its mask and flags as sums.
abbrev pub verdict_frame : Bool → Bool → Bool → Bool → ℕ → Bool → ℕ → Bytes
verdict_frame bloom scan rate rule severity escalate seq =
    verdict_magic
    ∷ (to_int bloom + 2 * to_int scan + 4 * to_int rate + 8 * to_int rule)
    ∷ severity
    ∷ to_int escalate
    ∷ (seq % 256)
    ∷ zeros 27

-- Encoding writes the frame of the protocol exactly when the severity is a byte, and raises
-- ValueError otherwise.
pub encode_verdict-frame :
    (bloom scan rate rule : Bool) (severity : ℕ) (escalate : Bool) (seq : ℕ)
    → encode_verdict bloom scan rate rule severity escalate seq ≡ (
        if ltb severity 256
        then ok (verdict_frame bloom scan rate rule severity escalate seq)
        else raise value_error)
unfolding encode_verdict
encode_verdict-frame true true true true severity escalate seq = ground (arith, bit_and_mask 8 seq)
encode_verdict-frame b scan rate rule severity escalate seq = ground (arith, bit_and_mask 8 seq)

pub decode_verdict-frame :
    (bloom scan rate rule : Bool) (severity : ℕ) (escalate : Bool) (seq : ℕ)
    → decode_verdict (verdict_frame bloom scan rate rule severity escalate seq)
      ≡ ok (record {
        valid = true;
        bloom_hit = bloom;
        port_scan_hit = scan;
        rate_anomaly_hit = rate;
        rule_match_hit = rule;
        severity = severity;
        escalate = escalate;
        seq = seq % 256;
      })
unfolding decode_verdict
decode_verdict-frame b scan rate rule severity escalate seq = ground arith

-- Decoding what was encoded gives every argument back, the sequence number modulo 256, when the
-- severity is a byte; otherwise the encoder raises ValueError.
pub decode_verdict-encode_verdict :
    (bloom scan rate rule : Bool) (severity : ℕ) (escalate : Bool) (seq : ℕ)
    → (encode_verdict bloom scan rate rule severity escalate seq >>= decode_verdict) ≡ (
        if ltb severity 256
        then ok (record {
          valid = true;
          bloom_hit = bloom;
          port_scan_hit = scan;
          rate_anomaly_hit = rate;
          rule_match_hit = rule;
          severity = severity;
          escalate = escalate;
          seq = seq % 256;
        })
        else raise value_error)
decode_verdict-encode_verdict b sc ra ru severity escalate seq =
    rw (encode_verdict-frame b sc ra ru severity escalate seq)
      (ground (arith, decode_verdict-frame b sc ra ru severity escalate seq))

-- A frame decodes exactly when it has 32 bytes, and any other length raises ValueError.
pub decode_verdict_total :
    (frame : Bytes)
    → ((length frame ≡ 32) × ((v : Verdict) × (decode_verdict frame ≡ ok v)))
      ⊎ ((length frame ≢ 32) × (decode_verdict frame ≡ raise value_error))
unfolding decode_verdict
decode_verdict_total frame = ground arith

-- `describe` calls a verdict clean exactly when it is valid and no stage fired.
pub describe-clean_iff :
    (v : Verdict)
    → (describe v ≡ clean_at v.seq) ↔ (
        (v.valid ≡ true)
        × ((v.bloom_hit || (v.port_scan_hit || (v.rate_anomaly_hit || v.rule_match_hit))) ≡ false))
unfolding describe
describe-clean_iff v = ground arith
