-- ===== src/Silicon.antt =====
-- The scripts that check the FPGA over SPI: silicon_runtime_check.py here, and in the children
-- silicon_telemetry_check.py, silicon_flow_check.py, silicon_loop_demo.py, spi_verdict_check.py and
-- read_telemetry.py. What they print is left out, and a script gives its exit code.
pub mod Settings
pub mod Queries
pub mod Collision
pub mod LoopDemo
use fpga_pi_parallel_nids.Prelude.{
  ℕ, ◌+◌, Bool, true, false, not, ◌&&◌, ◌||◌, Result, ok, raise, value_error, ◌>>=◌, ◌==◌,
  if◌then◌else◌, get_or,
}
use fpga_pi_parallel_nids.Prelude.Bytes.{Bytes, zeros}
use fpga_pi_parallel_nids.Control.{
  response_magic, op_thresh_w, op_bloom_w, op_rule_w, encode_threshold_write, encode_threshold_read,
  decode_threshold_read, encode_bloom_write, encode_bloom_read, decode_bloom_read,
  encode_rule_write, encode_rule_read, decode_rule_read,
}
use fpga_pi_parallel_nids.Rules.{Rule}
use fpga_pi_parallel_nids.SpiLink.{frame_len, send_frame}

-- `my_rule`
abbrev pub my_rule : Rule
my_rule = record { src_ip = 0xCB007105; action = 0b101; severity = 3; epoch = 7 }

-- `==` on the dictionaries of two rules.
unfoldable pub same_rule : Rule → Rule → Bool
same_rule r s =
    r.src_ip == s.src_ip
    && (r.action == s.action && (r.severity == s.severity && r.epoch == s.epoch))

-- The errors of a `try` block that compares: a ValueError counts as one.
abbrev pub tried : Result Bool → Result ℕ
tried (ok true) = ok 0
tried (ok false) = ok 1
tried (raise value_error) = ok 1
tried (raise e) = raise e

-- The errors of an acknowledgement.
abbrev pub ack_errors : Bytes → ℕ → ℕ
ack_errors ack op =
    if not (get_or ack 0 0 == response_magic) || not (get_or ack 1 0 == op) then 1 else 0

abbrev pub is_threshold : Bytes → Result Bool
is_threshold resp = decode_threshold_read resp >>= λ t. ok (t.tid == 0x02 && t.value == 12)

abbrev pub is_word : Bytes → Result Bool
is_word resp = decode_bloom_read resp >>= λ b. ok (b.addr == 0xABC && b.value == 0xBEEF)

abbrev pub is_rule : Bytes → Result Bool
is_rule resp = decode_rule_read resp >>= λ r. ok (r.idx == 42 && same_rule r.rule my_rule)

module _ {W : Type 0} (xfer2 : W → Bytes → W × Bytes) where
  -- The frames of the acknowledgement and of the response.
  unfoldable pub write_then_read : W → Bytes → Bytes → Result (W × (Bytes × Bytes))
  write_then_read w write_frame read_frame = do
    (w1, _) ← send_frame xfer2 w write_frame
    (w2, ack) ← send_frame xfer2 w1 (zeros frame_len)
    (w3, _) ← send_frame xfer2 w2 read_frame
    (w4, resp) ← send_frame xfer2 w3 (zeros frame_len)
    ok (w4, (ack, resp))

  -- One block of `main`, with the errors it counts.
  unfoldable pub round_trip :
      W → Result Bytes → ℕ → Result Bytes → (Bytes → Result Bool) → Result (W × ℕ)
  round_trip w write_frame op read_frame test = do
    f ← write_frame
    g ← read_frame
    (w1, (ack, resp)) ← write_then_read w f g
    errs ← tried (test resp)
    ok (w1, ack_errors ack op + errs)

  unfoldable pub runtime_check : W → Result (W × ℕ)
  runtime_check w = do
    (w1, a) ←
        round_trip w (encode_threshold_write 0x02 12) op_thresh_w (encode_threshold_read 0x02)
          is_threshold
    (w2, b) ←
        round_trip w1 (encode_bloom_write 0xABC 0xBEEF) op_bloom_w (encode_bloom_read 0xABC) is_word
    (w3, c) ← round_trip w2 (encode_rule_write 42 my_rule) op_rule_w (encode_rule_read 42) is_rule
    ok (w3, (if a + b + c == 0 then 0 else 1))
