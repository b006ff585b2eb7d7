-- ===== src/Control/Frames.antt =====
-- control.py: the frame of a command that fits.
use fpga_pi_parallel_nids.Prelude.{
  ◌≡◌, true, some, Result, ok, ◌>>=◌, ◌∙◌, overflow_error, arith, if◌then◌else◌, length,
}
use fpga_pi_parallel_nids.Prelude.Bytes.{Bytes}
use fpga_pi_parallel_nids.Control.{
  encode_bloom_write, encode_threshold_write, encode_rule_write, encode_bloom_read,
  encode_threshold_read, encode_rule_read,
}
use fpga_pi_parallel_nids.Control.Commands.{
  Command, bloom_write, threshold_write, rule_write, bloom_read, threshold_read, rule_read, encode,
  read_command, fits, cut, read_command-encode,
}

pub length-encode : (c : Command) (f : Bytes) → encode c ≡ ok f → length f ≡ 32
unfolding encode_bloom_write encode_threshold_write encode_rule_write encode_bloom_read
    encode_threshold_read encode_rule_read
length-encode (bloom_write addr value) f e = ground arith
length-encode (threshold_write tid value) f e = ground arith
length-encode (rule_write idx rule) f e = ground arith
length-encode (bloom_read addr) f e = ground arith
length-encode (threshold_read tid) f e = ground arith
length-encode (rule_read idx) f e = ground arith

frame_of_result :
    (c : Command) (r : Result Bytes)
    → (r >>= λ f. ok (read_command f)) ≡ ok (some (cut c))
    → (f : Bytes) × (r ≡ ok f) × (read_command f ≡ some (cut c))
frame_of_result c (ok f) e = (f, cc, cc)
frame_of_result c (Result.raise x) e = absurd cc

chosen :
    (c : Command)
    → fits c ≡ true
    → (if fits c then ok (some (cut c)) else Result.raise overflow_error) ≡ ok (some (cut c))
chosen c fit = rw fit

-- The frame of a command that fits is built, and the device reads the command in it.
pub command_frame :
    (c : Command)
    → fits c ≡ true
    → (f : Bytes) × (encode c ≡ ok f) × (read_command f ≡ some (cut c)) × (length f ≡ 32)
command_frame c fit =
    let (f, e, r) = frame_of_result c (encode c) (read_command-encode c ∙ chosen c fit) in
    (f, e, r, length-encode c f e)
