-- ===== src/Tests/Demo.antt =====
-- Instances for demo/orchestrator.py.
use fpga_pi_parallel_nids.Prelude.{
  List, length, ℕ, ◌+◌, ◌^◌, ◌<◌, ◌≡◌, true, [], some, ok, ◌>>=◌, arith, ◌==◌, if◌then◌else◌,
}
use fpga_pi_parallel_nids.Prelude.Bytes.{Bytes, to_int}
use fpga_pi_parallel_nids.Control.{encode_rule_write}
use fpga_pi_parallel_nids.Control.Commands.{rule_write, read_command}
use fpga_pi_parallel_nids.Orchestrator.{
  PushedRule, DemoState, lookup_idx, rule_for, maybe_push_rule,
}
use fpga_pi_parallel_nids.Orchestrator.Push.{
  IsLog, decision, argument, pushed_rule-lookup, maybe_push_rule_total,
}
use fpga_pi_parallel_nids.Rules
use fpga_pi_parallel_nids.Telemetry.{SnapResponse}

-- A device that answers each frame with the frame before it, and a clock that counts its readings.
abbrev World : Type 0
World = Bytes × ℕ

abbrev exchange : World → Bytes → World × Bytes
exchange w tx = ((tx, w.1), w.0)

abbrev clock : World → World × ℕ
clock w = ((w.0, w.1 + 1), w.1)

abbrev talker : SnapResponse
talker = record {
  window = 1;
  total = 1000;
  harmonic_sum = 0;
  zeros = 2000;
  top1_count = 900;
  top1_key = 0x0A000001;
}

abbrev watching : DemoState ℕ ℕ
watching = record {
  scenario_name = 0;
  start_monotonic = 0;
  snapshot = some talker;
  pushed_rules = [];
  recent_verdicts = [];
  rule_epoch = 1;
  frames_sent = 0;
}

talker-small : (s : SnapResponse) → watching.snapshot ≡ some s → s.top1_key < 2 ^ 32
talker-small s e = ground arith

maybe_push_rule_total_example :
    (w1 : World) × (rules : List (PushedRule ℕ)) × (maybe_push_rule exchange clock
        ([], 0)
        watching
        100
        2
        3
      ≡ ok (w1, (record watching { pushed_rules = rules }, decision watching 100)))
    × (length rules ≡ length watching.pushed_rules + to_int (decision watching 100))
    × IsLog rules
maybe_push_rule_total_example =
    maybe_push_rule_total exchange clock ([], 0) watching 100 2 3 tt talker-small

pushed_rule-lookup_example :
    (f : Bytes) × (encode_rule_write (lookup_idx 0x0A000001) (rule_for watching 0x0A000001 2 3)
      ≡ ok f)
    × (read_command f
        ≡ some (rule_write (lookup_idx 0x0A000001) (rule_for watching 0x0A000001 2 3)))
    × ((Rules.write Rules.init (lookup_idx 0x0A000001) (argument (rule_for watching 0x0A000001 2 3))
          >>= λ rs. Rules.lookup rs 0x0A000001 1)
        ≡ ok (
            if watching.rule_epoch == 1
            then record { found = true; action = 2; severity = 3 }
            else Rules.no_match))
pushed_rule-lookup_example =
    pushed_rule-lookup Rules.init watching 0x0A000001 2 3 1 Rules.Laws.init-IsValid (omega arith)
      (omega arith) (omega arith) (omega arith)
