-- ===== src/Verdict.antt =====
-- verdict.py: the 32-byte verdict frame that the FPGA returns, and what is read from it.
pub mod Frame
use fpga_pi_parallel_nids.Prelude.{
  ℕ, ◌-◌, ◌*◌, ◌^◌, bit_and, bit_or, Bool, true, false, ◌++◌, List, [], ◌∷◌, Result, ok, raise,
  value_error, ◌>>=◌, ◌==◌, if◌then◌else◌, length, get_or,
}
use fpga_pi_parallel_nids.Prelude.Bytes.{Bytes, truthy, to_int, bytes_of, zeros}

abbrev pub verdict_magic : ℕ
verdict_magic = 0xA5

abbrev pub verdict_len : ℕ
verdict_len = 32

-- The names in `_STAGE_BITS`, in wire-bit order.
pub data Stage : Type 0 where
  bloom port_scan rate_anomaly rule_match : Stage

abbrev pub stage_bits : List (Stage × ℕ)
stage_bits = (bloom, 0) ∷ (port_scan, 1) ∷ (rate_anomaly, 2) ∷ (rule_match, 3) ∷ []

abbrev pub flag_escalate : ℕ
flag_escalate = 1 * 2 ^ 0

pub record Verdict : Type 0 where
  pub valid : Bool
  pub bloom_hit : Bool
  pub port_scan_hit : Bool
  pub rate_anomaly_hit : Bool
  pub rule_match_hit : Bool
  pub severity : ℕ
  pub escalate : Bool
  pub seq : ℕ

-- The dictionary `hits` of `threats`.
abbrev pub hits : Verdict → Stage → Bool
hits v bloom = v.bloom_hit
hits v port_scan = v.port_scan_hit
hits v rate_anomaly = v.rate_anomaly_hit
hits v rule_match = v.rule_match_hit

-- `[name for name, _ in bits if hits[name]]`
abbrev pub fired : Verdict → List (Stage × ℕ) → List Stage
fired v [] = []
fired v ((name, _) ∷ bits) = if hits v name then name ∷ fired v bits else fired v bits

unfoldable pub threats : Verdict → List Stage
threats v = fired v stage_bits

-- The names in `_SEVERITY_NAMES`; `other n` is the text of the number `n`.
pub data SeverityName : Type 0 where
  clean low med high : SeverityName
  other : ℕ → SeverityName

unfoldable pub severity_name : Verdict → SeverityName
severity_name v =
    if v.severity == 0
    then clean
    else if v.severity == 1
    then low
    else if v.severity == 2
    then med
    else if v.severity == 3
    then high
    else other v.severity

-- The text that `describe` makes, by its parts: "no-verdict", "CLEAN seq=…", and
-- "THREAT[…] severity seq=…" with " ESCALATE" before `seq` if the flag is set.
pub data Description : Type 0 where
  no_verdict : Description
  clean_at : ℕ → Description
  threat : List Stage → SeverityName → Bool → ℕ → Description

unfoldable pub describe : Verdict → Description
unfolding threats severity_name
describe v =
    if v.valid
    then elim (threats v) [
      | [] ↦ clean_at v.seq
      | s ∷ ss ↦ threat (threats v) (severity_name v) v.escalate v.seq
    ]
    else no_verdict

-- The arguments in the order of the source, all of them given.
unfoldable pub encode_verdict : Bool → Bool → Bool → Bool → ℕ → Bool → ℕ → Result Bytes
encode_verdict bloom_hit port_scan_hit rate_anomaly_hit rule_match_hit severity escalate seq =
    let mask =
      bit_or
        (bit_or (bit_or (to_int bloom_hit * 2 ^ 0) (to_int port_scan_hit * 2 ^ 1))
          (to_int rate_anomaly_hit * 2 ^ 2))
        (to_int rule_match_hit * 2 ^ 3) in
    let flags : ℕ = if escalate then flag_escalate else 0 in
    do
      head ← bytes_of (verdict_magic ∷ mask ∷ severity ∷ flags ∷ bit_and seq 0xFF ∷ [])
      ok (head ++ zeros (verdict_len - length head))

unfoldable pub decode_verdict : Bytes → Result Verdict
decode_verdict frame =
    let mask = get_or frame 1 0 in
    if length frame == verdict_len
    then ok (record {
      valid = get_or frame 0 0 == verdict_magic;
      bloom_hit = truthy (bit_and mask (1 * 2 ^ 0));
      port_scan_hit = truthy (bit_and mask (1 * 2 ^ 1));
      rate_anomaly_hit = truthy (bit_and mask (1 * 2 ^ 2));
      rule_match_hit = truthy (bit_and mask (1 * 2 ^ 3));
      severity = get_or frame 2 0;
      escalate = truthy (bit_and (get_or frame 3 0) flag_escalate);
      seq = get_or frame 4 0;
    })
    else raise value_error
