-- ===== src/Control/Commands.antt =====
-- control.py: the commands as the device reads them (PROTOCOL.md): opcode in byte 16, operands from
-- byte 0 on.
use fpga_pi_parallel_nids.Prelude.{
  ℕ, ◌%◌, ◌^◌, ◌≡◌, Bool, true, ◌&&◌, Option, none, some, Result, ok, raise, overflow_error, ◌>>=◌,
  arith, ltb, ◌==◌, if◌then◌else◌, get_or,
}
use fpga_pi_parallel_nids.Prelude.Bits.{bit_and_mask}
use fpga_pi_parallel_nids.Prelude.Bytes.{Bytes, from_bytes, slice}
use fpga_pi_parallel_nids.Rules.{Rule}
use fpga_pi_parallel_nids.Control.{
  encode_bloom_write, encode_threshold_write, encode_rule_write, encode_bloom_read,
  encode_threshold_read, encode_rule_read,
}

pub data Command : Type 0 where
  bloom_write : ℕ → ℕ → Command
  threshold_write : ℕ → ℕ → Command
  rule_write : ℕ → Rule → Command
  bloom_read : ℕ → Command
  threshold_read : ℕ → Command
  rule_read : ℕ → Command

-- The encoder of each command.
abbrev pub encode : Command → Result Bytes
encode (bloom_write addr value) = encode_bloom_write addr value
encode (threshold_write tid value) = encode_threshold_write tid value
encode (rule_write idx rule) = encode_rule_write idx rule
encode (bloom_read addr) = encode_bloom_read addr
encode (threshold_read tid) = encode_threshold_read tid
encode (rule_read idx) = encode_rule_read idx

-- The device's reading of a frame; `none` for an opcode that is no command of these.
unfoldable pub read_command : Bytes → Option Command
read_command f =
    let op = get_or f 16 0 in
    let first = from_bytes (slice f 0 2) in
    if op == 0x10
    then some (bloom_write first (from_bytes (slice f 2 4)))
    else if op == 0x11
    then some (threshold_write (get_or f 0 0) (from_bytes (slice f 1 3)))
    else if op == 0x12
    then some (
        rule_write first (record {
          src_ip = from_bytes (slice f 2 6);
          action = get_or f 6 0;
          severity = get_or f 7 0;
          epoch = get_or f 8 0;
        }))
    else if op == 0x13
    then some (bloom_read first)
    else if op == 0x14
    then some (threshold_read (get_or f 0 0))
    else if op == 0x15
    then some (rule_read first)
    else none

-- The operands that to_bytes accepts, and those that are cut to a byte.
abbrev pub fits : Command → Bool
fits (bloom_write addr value) = ltb addr (2 ^ 16) && ltb value (2 ^ 16)
fits (threshold_write tid value) = ltb value (2 ^ 16)
fits (rule_write idx rule) = ltb idx (2 ^ 16) && ltb rule.src_ip (2 ^ 32)
fits (bloom_read addr) = ltb addr (2 ^ 16)
fits (threshold_read tid) = true
fits (rule_read idx) = ltb idx (2 ^ 16)

abbrev pub cut : Command → Command
cut (bloom_write addr value) = bloom_write addr value
cut (threshold_write tid value) = threshold_write (tid % 256) value
cut (rule_write idx rule) = rule_write idx (record {
  src_ip = rule.src_ip;
  action = rule.action % 256;
  severity = rule.severity % 256;
  epoch = rule.epoch % 256;
})
cut (bloom_read addr) = bloom_read addr
cut (threshold_read tid) = threshold_read (tid % 256)
cut (rule_read idx) = rule_read idx

-- The device reads every encoded command as what was meant, with identifiers and the bytes of a
-- rule modulo 256; a number too wide for its field raises OverflowError and no frame is built.
pub read_command-encode :
    (c : Command)
    → (encode c >>= λ f. ok (read_command f))
      ≡ (if fits c then ok (some (cut c)) else raise overflow_error)
unfolding encode_bloom_write encode_threshold_write encode_rule_write encode_bloom_read
    encode_threshold_read encode_rule_read read_command
read_command-encode (bloom_write addr value) = ground arith
read_command-encode (threshold_write tid value) = ground (arith, bit_and_mask 8 tid)
read_command-encode (rule_write idx rule) =
    ground
      (arith, bit_and_mask 8 rule.action, bit_and_mask 8 rule.severity, bit_and_mask 8 rule.epoch)
read_command-encode (bloom_read addr) = ground arith
read_command-encode (threshold_read tid) = ground (arith, bit_and_mask 8 tid)
read_command-encode (rule_read idx) = ground arith
