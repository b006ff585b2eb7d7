-- ===== src/Tests/Boards.antt =====
-- Instances for spi_verdict_check.py and silicon_runtime_check.py.
use fpga_pi_parallel_nids.Prelude.{
  ℕ, ◌+◌, ◌%◌, bit_and, ◌==◌, if◌then◌else◌, true, sym, ap, ◌∙◌, ◌≡◌, refl, List, [], ◌∷◌, Option,
  none, some, Result, ok, raise, arith,
}
use fpga_pi_parallel_nids.Prelude.Bytes.{Bytes, zeros}
use fpga_pi_parallel_nids.Classifier.{Classifier, classify}
use fpga_pi_parallel_nids.Control.Commands.{Command, read_command}
use fpga_pi_parallel_nids.Golden.{vscan, flood, Stream, GoldenRow, reference, rows_from}
use fpga_pi_parallel_nids.Orchestrator.Push.{argument}
use fpga_pi_parallel_nids.Rules
use fpga_pi_parallel_nids.Rules.{Rule}
use fpga_pi_parallel_nids.Thresholds
use fpga_pi_parallel_nids.Thresholds.{Thresholds, defaults}
use fpga_pi_parallel_nids.Prelude.Bits.{bit_and_mask}
use fpga_pi_parallel_nids.Prelude.Dict.{contains}
use fpga_pi_parallel_nids.Silicon.{runtime_check}
use fpga_pi_parallel_nids.Silicon.Settings.{
  KeepsSettings, is_kept, threshold_reply, word_reply, rule_reply, reader, written, opcode, ack_of,
  runtime_check_total,
}
use fpga_pi_parallel_nids.SiliconCheck.Live.{IsReference, live_check, live_check_total}

-- A board: its classifier, its two counters, and the pending verdict.
pub record Board : Type 0 where
  clf : Classifier
  seq : ℕ
  count : ℕ
  pending : Bytes

abbrev advance : Board → Result (Classifier × Bytes) → Board
advance w (ok (c, v)) = record { clf = c; seq = w.seq + 1; count = w.count + 1; pending = v }
advance w (raise e) = record w { seq = w.seq + 1; count = w.count + 1 }

abbrev transfer : Board → Bytes → Board × Bytes
transfer w f = (advance w (classify w.clf f w.seq w.count), w.pending)

advance-seq : (w : Board) (r : Result (Classifier × Bytes)) → (advance w r).seq ≡ w.seq + 1
advance-seq w (ok (c, v)) = refl
advance-seq w (raise e) = refl

advance-count : (w : Board) (r : Result (Classifier × Bytes)) → (advance w r).count ≡ w.count + 1
advance-count w (ok (c, v)) = refl
advance-count w (raise e) = refl

transfer-IsReference :
    IsReference transfer (λ w. w.clf) (λ w. w.seq) (λ w. w.count) (λ w. w.pending)
transfer-IsReference = record {
  answer = λ w f. refl;
  next_classifier = λ w f c v e. rw e;
  next_verdict = λ w f c v e. rw e;
  next_seq = λ w f. advance-seq w (classify w.clf f w.seq w.count);
  next_count = λ w f. advance-count w (classify w.clf f w.seq w.count);
}

-- A board that was not reset: its sequence number is 255.
abbrev running : Board
running = record { clf = reference; seq = 255; count = 0; pending = zeros 32 }

abbrev two_headers : Stream
two_headers = (vscan, zeros 32) ∷ (flood, (7 ∷ zeros 31)) ∷ []

live_check_total_example :
    (rows : List GoldenRow) × (w1 : Board) × (rows_from reference 0 two_headers ≡ ok rows)
    × (live_check transfer running rows ≡ ok (w1, 0))
live_check_total_example =
    live_check_total transfer (λ w. w.clf) (λ w. w.seq) (λ w. w.count) (λ w. w.pending)
      transfer-IsReference running two_headers (refl, (refl, tt)) refl

-- A device with the program's own model of the thresholds, 4096 words, and 512 slots for rules as
-- the store keeps them, and the pending answer.
record Device : Type 0 where
  thresholds : Thresholds
  words : ℕ → ℕ
  rules : ℕ → Rule
  pending : Bytes

-- The response to a command, which for a write is the acknowledgement.
abbrev holds : Device → Command → Bytes
holds w (Command.threshold_read t) = threshold_reply t (Thresholds.read w.thresholds t)
holds w (Command.bloom_read a) = word_reply a (w.words (a % 4096))
holds w (Command.rule_read i) = rule_reply i (w.rules (i % 512))
holds w (Command.threshold_write t v) = ack_of 0x11
holds w (Command.bloom_write a v) = ack_of 0x10
holds w (Command.rule_write i r) = ack_of 0x12

abbrev obey : Device → Command → Device
obey w (Command.threshold_write t v) = record w { thresholds = Thresholds.write w.thresholds t v }
obey w (Command.bloom_write a v) = record w { words = λ i. if a % 4096 == i then v else w.words i }
obey w (Command.rule_write i r) = record w {
  rules = λ j. if i % 512 == j then Rules.stored (argument r) else w.rules j;
}
obey w c = w

abbrev serve : Option Command → Device → Device
serve (some c) w = record (obey w c) { pending = holds w c }
serve none w = record w { pending = zeros 32 }

abbrev exchange : Device → Bytes → Device × Bytes
exchange w f = (serve (read_command f) w, w.pending)

acknowledged : (w : Device) (c r : Command) → reader c ≡ some r → holds w c ≡ ack_of (opcode c)
acknowledged w (Command.threshold_write t v) r e = refl
acknowledged w (Command.bloom_write a v) r e = refl
acknowledged w (Command.rule_write i s) r e = refl
acknowledged w (Command.threshold_read t) r e = absurd cc
acknowledged w (Command.bloom_read a) r e = absurd cc
acknowledged w (Command.rule_read i) r e = absurd cc

reads_back :
    (w : Device) (c r : Command)
    → reader c ≡ some r
    → is_kept c ≡ true
    → holds (obey w c) r ≡ written c
unfolding Rules.stored
reads_back w (Command.threshold_write t v) r e kept =
    let same : Command.threshold_read t ≡ r = cc e in
    let four : contains defaults t ≡ true = ground arith in
    let value : Thresholds.read (Thresholds.write w.thresholds t v) t ≡ v =
      ground (arith, Thresholds.read-write w.thresholds t v t, four) in
    rw (sym same) (ap (λ x. threshold_reply t x) value)
reads_back w (Command.bloom_write a v) r e kept =
    let same : Command.bloom_read a ≡ r = cc e in rw (sym same) (ground arith)
reads_back w (Command.rule_write i s) r e kept =
    let same : Command.rule_read i ≡ r = cc e in
    let severity : bit_and s.severity 0x0F ≡ s.severity =
      ground (arith, bit_and_mask 4 s.severity) in
    rw (sym same) (ground (arith, severity))
reads_back w (Command.threshold_read t) r e kept = absurd cc
reads_back w (Command.bloom_read a) r e kept = absurd cc
reads_back w (Command.rule_read i) r e kept = absurd cc

unanswered :
    (w : Device) (answer : Bytes) (c : Command)
    → holds (record w { pending = answer }) c ≡ holds w c
unanswered w answer (Command.threshold_write t v) = refl
unanswered w answer (Command.bloom_write a v) = refl
unanswered w answer (Command.rule_write i s) = refl
unanswered w answer (Command.threshold_read t) = refl
unanswered w answer (Command.bloom_read a) = refl
unanswered w answer (Command.rule_read i) = refl

exchange-KeepsSettings : KeepsSettings exchange holds (λ w. w.pending)
exchange-KeepsSettings = record {
  answer = λ w f. refl;
  write_ack = λ w f c r p e. rw e (acknowledged w c r p);
  write_holds =
      λ w f c r p kept e. rw e (unanswered (obey w c) (holds w c) r ∙ reads_back w c r p kept);
  idle_holds = λ w f r e. rw e (unanswered w (zeros 32) r);
  read_answer = λ w f c r p e. rw e refl;
}

abbrev reset : Device
reset = record {
  thresholds = Thresholds.init;
  words = λ i. 0;
  rules = λ i. Rules.blank;
  pending = zeros 32;
}

runtime_check_total_example : (w1 : Device) × (runtime_check exchange reset ≡ ok (w1, 0))
runtime_check_total_example =
    runtime_check_total exchange holds (λ w. w.pending) exchange-KeepsSettings reset
