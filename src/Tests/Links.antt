-- ===== src/Tests/Links.antt =====
-- Instances for the checks of a link and of the board: ber.py, hot_load_bloom.py, silicon_check.py,
-- gen_verdict_golden.py, viz_core.py and demo/dashboard.py.
use fpga_pi_parallel_nids.Prelude.{
  ℕ, zero, suc, ◌+◌, ◌%◌, ◌≤◌, ◌≡◌, refl, true, false, List, [], ◌∷◌, ◌++◌, Option, none, some,
  Result, ok, raise, value_error, ltb, leb, ◌==◌, if◌then◌else◌, arith, length, All, get_or, take,
}
use fpga_pi_parallel_nids.Prelude.Bytes.{Bytes, zeros}
use fpga_pi_parallel_nids.Ber.{run_one}
use fpga_pi_parallel_nids.Ber.Echo.{IsEcho, run_one-echo}
use fpga_pi_parallel_nids.Control.Commands.{
  Command, bloom_write, threshold_write, rule_write, bloom_read, threshold_read, rule_read,
  read_command,
}
use fpga_pi_parallel_nids.Golden.{vscan, Stream, pad_fuel, pad_to_window}
use fpga_pi_parallel_nids.Golden.Padding.{IsPad, pad_to_window_total}
use fpga_pi_parallel_nids.HotLoad.{hot_load}
use fpga_pi_parallel_nids.HotLoad.Verified.{IsSample, KeepsWords, bloom_reply, hot_load_total}
use fpga_pi_parallel_nids.Orchestrator
use fpga_pi_parallel_nids.Orchestrator.{DemoState}
use fpga_pi_parallel_nids.Verdict.{Verdict}

-- An echo: its state is the last frame.
abbrev echo : Bytes → Bytes → Bytes × Bytes
echo w f = (f, w)

echo_echoes : IsEcho echo (λ w. w)
echo_echoes = record { answer = λ w f. refl; keep = λ w f. refl }

run_one-echo_example :
    (w1 : Bytes) × (run_one echo [] (zeros 32 ∷ (7 ∷ zeros 31) ∷ [])
      ≡ ok (w1, record { frames_compared = 1; frame_errors = 0; bit_errors = 0; frame_bits = 256 }))
run_one-echo_example =
    run_one-echo echo (λ w. w) echo_echoes [] (zeros 32) ((7 ∷ zeros 31) ∷ []) (refl, (refl, tt))

-- A device with a filter of words, of whose addresses it uses 12 bits, and the pending answer.
abbrev Device : Type 0
Device = (ℕ → ℕ) × Bytes

abbrev serve : Option Command → (ℕ → ℕ) → Device
serve (some (bloom_write a v)) cells = ((λ i. if a % 4096 == i then v else cells i), zeros 32)
serve (some (bloom_read a)) cells = (cells, bloom_reply a (cells (a % 4096)))
serve (some (threshold_write t v)) cells = (cells, zeros 32)
serve (some (rule_write i r)) cells = (cells, zeros 32)
serve (some (threshold_read t)) cells = (cells, zeros 32)
serve (some (rule_read i)) cells = (cells, zeros 32)
serve none cells = (cells, zeros 32)

abbrev device : Device → Bytes → Device × Bytes
device w f = (serve (read_command f) w.0, w.1)

device_keeps : KeepsWords device (λ w. w.0) (λ w. w.1)
device_keeps = record {
  answer = λ w f. refl;
  write = λ w f a v e i. rw e;
  read = λ w f a e. rw e;
  read_keeps = λ w f a e i. rw e;
  other_keeps = λ w f e i. rw e;
}

-- The first members of the population.
abbrev first_few : List ℕ → ℕ → Result (List ℕ)
first_few pool k = if leb k (length pool) then ok (take k pool) else raise value_error

All-take : (P : ℕ → Type 0) (k : ℕ) (xs : List ℕ) → All P xs → All P (take k xs)
All-take P zero xs h = tt
All-take P (suc k) [] h = tt
All-take P (suc k) (x ∷ xs) (p, h) = (p, All-take P k xs h)

first_few_samples : IsSample first_few
first_few_samples = record {
  drawn = λ pool k enough P h. (take k pool, ground arith, All-take P k pool h);
}

hot_load_total_example :
    (w1 : Device) × (hot_load device first_few ((λ i. 9), zeros 32) 3 (0 ∷ 5 ∷ 0 ∷ []) ≡ ok (w1, 0))
    × ((i : ℕ) → w1.0 i ≡ (if ltb i 3 then get_or (0 ∷ 5 ∷ 0 ∷ []) i 0 else 9))
hot_load_total_example =
    hot_load_total device first_few (λ w. w.0) (λ w. w.1) device_keeps first_few_samples
      ((λ i. 9), zeros 32) 3 (0 ∷ 5 ∷ 0 ∷ []) (omega arith, (omega arith, (omega arith, tt)))
      (omega arith) (omega arith)

abbrev scan_stream : Stream
scan_stream = (vscan, zeros 32) ∷ (vscan, (7 ∷ zeros 31)) ∷ []

pad_to_window_total_example :
    (pads : Stream) × (pad_to_window pad_fuel scan_stream 0
      ≡ some (ok (scan_stream ++ pads, 0 + length pads)))
    × (length (scan_stream ++ pads) % 16 ≡ 0)
    × (length pads ≤ 15)
    × All IsPad pads
pad_to_window_total_example = pad_to_window_total scan_stream 0 (omega arith)

abbrev hit : Verdict
hit = record {
  valid = true;
  bloom_hit = true;
  port_scan_hit = false;
  rate_anomaly_hit = false;
  rule_match_hit = false;
  severity = 3;
  escalate = true;
  seq = 1;
}

abbrev watched : DemoState ℕ ℕ
watched = Orchestrator.record_verdict (Orchestrator.init 4 0 0) hit
