-- ===== src/Silicon/Settings.antt =====
-- silicon_runtime_check.py: it passes on a device that keeps its settings.
use fpga_pi_parallel_nids.Prelude.{
  ℕ, ltb, ◌&&◌, false, ◌≡◌, refl, ◌∙◌, ap, Bool, true, ◌∷◌, ◌++◌, Option, some, none, Result, ok,
  arith, length,
}
use fpga_pi_parallel_nids.Prelude.Bytes.{Bytes, be_digits, zeros}
use fpga_pi_parallel_nids.Control.{
  op_thresh_w, op_bloom_w, op_rule_w, op_thresh_r, op_bloom_r, op_rule_r, decode_threshold_read,
  decode_bloom_read, decode_rule_read,
}
use fpga_pi_parallel_nids.Control.Commands.{
  Command, threshold_write, threshold_read, bloom_write, bloom_read, rule_write, rule_read,
  read_command, encode, fits, cut,
}
use fpga_pi_parallel_nids.Control.Frames.{command_frame}
use fpga_pi_parallel_nids.Rules.{Rule}
use fpga_pi_parallel_nids.SpiLink.{send_frame}
use fpga_pi_parallel_nids.Silicon.{
  my_rule, same_rule, ack_errors, is_threshold, is_word, is_rule, write_then_read, round_trip,
  runtime_check,
}

-- The responses of PROTOCOL.md.
abbrev pub ack_of : ℕ → Bytes
ack_of op = 0x5A ∷ op ∷ zeros 30

abbrev pub threshold_reply : ℕ → ℕ → Bytes
threshold_reply tid value = 0x5A ∷ tid ∷ (be_digits 2 value ++ zeros 28)

abbrev pub word_reply : ℕ → ℕ → Bytes
word_reply addr value = 0x5A ∷ (be_digits 2 addr ++ (be_digits 2 value ++ zeros 27))

abbrev pub rule_reply : ℕ → Rule → Bytes
rule_reply idx r =
    0x5A
    ∷ (be_digits 2 idx ++ (be_digits 4 r.src_ip ++ (r.action ∷ r.severity ∷ r.epoch ∷ zeros 22)))

-- The command that reads what a command writes; none for a command that reads.
abbrev pub reader : Command → Option Command
reader (threshold_write t v) = some (threshold_read t)
reader (bloom_write a v) = some (bloom_read a)
reader (rule_write i r) = some (rule_read i)
reader (threshold_read t) = none
reader (bloom_read a) = none
reader (rule_read i) = none

-- The response to that read, when nothing came between.
abbrev pub written : Command → Bytes
written (threshold_write t v) = threshold_reply t v
written (bloom_write a v) = word_reply a v
written (rule_write i r) = rule_reply i r
written (threshold_read t) = zeros 32
written (bloom_read a) = zeros 32
written (rule_read i) = zeros 32

abbrev pub opcode : Command → ℕ
opcode (threshold_write t v) = op_thresh_w
opcode (bloom_write a v) = op_bloom_w
opcode (rule_write i r) = op_rule_w
opcode (threshold_read t) = op_thresh_r
opcode (bloom_read a) = op_bloom_r
opcode (rule_read i) = op_rule_r

-- The writes that change a setting and are read back whole: a threshold with one of the four
-- identifiers, a word at one of the 4096 addresses, and a rule at one of the 512 slots without
-- reserved bits. A write to another threshold changes nothing, and the higher bits of an address or
-- a slot are not used.
abbrev pub is_kept : Command → Bool
is_kept (threshold_write t v) = ltb t 4 && ltb v 65536
is_kept (bloom_write a v) = ltb a 4096 && ltb v 65536
is_kept (rule_write i r) = ltb i 512 && (ltb r.action 8 && ltb r.severity 16)
is_kept (threshold_read t) = false
is_kept (bloom_read a) = false
is_kept (rule_read i) = false

-- What PROTOCOL.md says of a device with settings: it answers one frame late; a write is
-- acknowledged, and after one that is kept the read of the same setting gives what was written; a
-- frame that is no command changes no setting. `holds` is the response that a read would get.
pub record KeepsSettings {W : Type 0} (xfer2 : W → Bytes → W × Bytes) (holds : W → Command → Bytes)
    (pending : W → Bytes) : Type 0 where
  pub answer : (w : W) (f : Bytes) → (xfer2 w f).1 ≡ pending w
  pub write_ack :
      (w : W) (f : Bytes) (c r : Command)
      → reader c ≡ some r
      → read_command f ≡ some c
      → pending (xfer2 w f).0 ≡ ack_of (opcode c)
  pub write_holds :
      (w : W) (f : Bytes) (c r : Command)
      → reader c ≡ some r
      → is_kept c ≡ true
      → read_command f ≡ some c
      → holds (xfer2 w f).0 r ≡ written c
  pub idle_holds :
      (w : W) (f : Bytes) (r : Command) → read_command f ≡ none → holds (xfer2 w f).0 r ≡ holds w r
  pub read_answer :
      (w : W) (f : Bytes) (c r : Command)
      → reader c ≡ some r
      → read_command f ≡ some r
      → pending (xfer2 w f).0 ≡ holds w r

flush_none : read_command (zeros 32) ≡ none
unfolding read_command
flush_none = refl

module _ {W : Type 0} (xfer2 : W → Bytes → W × Bytes) (holds : W → Command → Bytes)
    (pending : W → Bytes) (device : KeepsSettings xfer2 holds pending) where
  sent : (w : W) (f : Bytes) → length f ≡ 32 → send_frame xfer2 w f ≡ ok ((xfer2 w f).0, pending w)
  unfolding send_frame
  sent w f size = ground (arith, size, device.answer w f)

  write_then_read_lem :
      (w : W) (f g : Bytes) (c r : Command)
      → length f ≡ 32
      → length g ≡ 32
      → reader c ≡ some r
      → is_kept c ≡ true
      → read_command f ≡ some c
      → read_command g ≡ some r
      → (w1 : W) × (write_then_read xfer2 w f g ≡ ok (w1, (ack_of (opcode c), written c)))
  unfolding write_then_read
  write_then_read_lem w f g c r f_size g_size pair kept writes reads =
      let w1 = (xfer2 w f).0 in
      let w2 = (xfer2 w1 (zeros 32)).0 in
      let w3 = (xfer2 w2 g).0 in
      (
        (xfer2 w3 (zeros 32)).0,
        rw (
          sent w f f_size,
          sent w1 (zeros 32) refl,
          sent w2 g g_size,
          sent w3 (zeros 32) refl,
          device.write_ack w f c r pair writes,
          device.read_answer w2 g c r pair reads,
          device.idle_holds w1 (zeros 32) r flush_none,
          device.write_holds w f c r pair kept writes,
        ),
      )

  round_trip_lem :
      (w : W) (c r : Command) (test : Bytes → Result Bool)
      → fits c ≡ true
      → fits r ≡ true
      → cut c ≡ c
      → cut r ≡ r
      → reader c ≡ some r
      → is_kept c ≡ true
      → ack_errors (ack_of (opcode c)) (opcode c) ≡ 0
      → test (written c) ≡ ok true
      → (w1 : W) × (round_trip xfer2 w (encode c) (opcode c) (encode r) test ≡ ok (w1, 0))
  unfolding round_trip
  round_trip_lem w c r test c_fits r_fits c_whole r_whole pair kept acked passes =
      let (f, f_made, f_read, f_size) = command_frame c c_fits in
      let (g, g_made, g_read, g_size) = command_frame r r_fits in
      let (w1, e) =
        write_then_read_lem w f g c r f_size g_size pair kept (f_read ∙ ap some c_whole)
          (g_read ∙ ap some r_whole) in
      (w1, rw (f_made, g_made, e, passes, acked))

  -- The check passes on any device that keeps its settings, as far as it has them, whatever it held and answered before.
  pub runtime_check_total : (w : W) → (w1 : W) × (runtime_check xfer2 w ≡ ok (w1, 0))
  unfolding runtime_check decode_threshold_read decode_bloom_read decode_rule_read
  runtime_check_total w =
      let (w1, a) =
        round_trip_lem w (threshold_write 0x02 12) (threshold_read 0x02) is_threshold refl refl refl
          refl refl refl refl refl in
      let (w2, b) =
        round_trip_lem w1 (bloom_write 0xABC 0xBEEF) (bloom_read 0xABC) is_word refl refl refl refl
          refl refl refl refl in
      let (w3, c) =
        round_trip_lem w2 (rule_write 42 my_rule) (rule_read 42) is_rule refl refl refl refl refl
          refl refl (unfold same_rule in refl) in
      (w3, rw (a, b, c))
