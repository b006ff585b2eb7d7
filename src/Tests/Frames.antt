-- ===== src/Tests/Frames.antt =====
-- Instances for verdict.py, classifier.py, telemetry.py, control.py and the frame builders.
use fpga_pi_parallel_nids.Prelude.{
  ◌%◌, ◌^◌, ◌≡◌, true, false, ◌&&◌, [], ◌∷◌, some, ok, raise, value_error, overflow_error,
  struct_error, ◌>>=◌, arith, ltb, if◌then◌else◌,
}
use fpga_pi_parallel_nids.Prelude.Bytes.{Bytes, be_digits}
use fpga_pi_parallel_nids.Bloom
use fpga_pi_parallel_nids.Classifier.{Classifier, parse, classify}
use fpga_pi_parallel_nids.Classifier.Verdicts.{decoded, after_header, classify-decode_verdict}
use fpga_pi_parallel_nids.Control.Commands.{
  Command, rule_write, encode, fits, cut, read_command, read_command-encode,
}
use fpga_pi_parallel_nids.Frames.{extract_header, tcp}
use fpga_pi_parallel_nids.Frames.Headers.{read_captured, parse-extract_header}
use fpga_pi_parallel_nids.ScanRate
use fpga_pi_parallel_nids.Thresholds
use fpga_pi_parallel_nids.Verdict.{Verdict, encode_verdict, decode_verdict}
use fpga_pi_parallel_nids.Verdict.Frame.{decode_verdict-encode_verdict}

decode_verdict-encode_verdict_example :
    (encode_verdict true false true false 3 true 261 >>= decode_verdict) ≡ (
      if ltb 3 256
      then ok (record {
        valid = true;
        bloom_hit = true;
        port_scan_hit = false;
        rate_anomaly_hit = true;
        rule_match_hit = false;
        severity = 3;
        escalate = true;
        seq = 261 % 256;
      })
      else raise value_error)
decode_verdict-encode_verdict_example =
    decode_verdict-encode_verdict true false true false 3 true 261

abbrev quiet : Verdict
quiet = record {
  valid = true;
  bloom_hit = false;
  port_scan_hit = false;
  rate_anomaly_hit = false;
  rule_match_hit = false;
  severity = 0;
  escalate = false;
  seq = 7;
}

-- A filter that lists 10.0.0.1, a fresh table, and a TCP SYN of that source.
abbrev fresh : Classifier
fresh = record { bloom = Bloom.add Bloom.init 0x0A000001; table = ScanRate.init Thresholds.init }

abbrev syn_bytes : Bytes
syn_bytes = 10 ∷ 0 ∷ 0 ∷ 1 ∷ 192 ∷ 168 ∷ 0 ∷ 1 ∷ 156 ∷ 64 ∷ 0 ∷ 22 ∷ 6 ∷ 2 ∷ 0 ∷ 60 ∷ []

classify-decode_verdict_example :
    (classify fresh syn_bytes 300 17 >>= decoded) ≡ (parse syn_bytes >>= after_header fresh 300 17)
classify-decode_verdict_example = classify-decode_verdict fresh syn_bytes 300 17

parse-extract_header_example :
    (extract_header (
        some (record {
          src = be_digits 4 0x0A000001;
          dst = be_digits 4 0xC0A80001;
          proto = 6;
          transport = tcp 40000 22 2;
          len = 65600;
        }))
      >>= read_captured)
    ≡ (if ltb 40000 (2 ^ 16) && (ltb 22 (2 ^ 16) && (ltb 6 256 && ltb 2 256))
        then ok (
            some (record {
              src_ip = 0x0A000001;
              dst_ip = 0xC0A80001;
              src_port = 40000;
              dst_port = 22;
              proto = 6;
              flags = 2;
              size = 65600 % 2 ^ 16;
            }))
        else raise struct_error)
parse-extract_header_example =
    parse-extract_header 0x0A000001 0xC0A80001 6 65600 (tcp 40000 22 2) (omega arith) (omega arith)

abbrev drop_rule : Command
drop_rule = rule_write 17 (record { src_ip = 0x0A000001; action = 2; severity = 3; epoch = 1 })

read_command-encode_example :
    (encode drop_rule >>= λ f. ok (read_command f))
    ≡ (if fits drop_rule then ok (some (cut drop_rule)) else raise overflow_error)
read_command-encode_example = read_command-encode drop_rule
