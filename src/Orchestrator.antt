-- ===== src/Orchestrator.antt =====
-- demo/orchestrator.py: the state of the demo, the poll of the snapshot, and the rule that is pushed
-- for a top talker. closed_loop.py has the same lookup hash, poll and epoch read.
pub mod Loop
pub mod Push
pub mod Poll
pub mod Sound
pub mod Ticks
pub mod Running
pub mod Live
use fpga_pi_parallel_nids.Prelude.{
  ℕ, ◌+◌, ◌-◌, ◌*◌, ◌/◌, ◌^◌, bit_and, Bool, true, false, not, ◌||◌, List, [], ◌∷◌, ◌++◌, Option,
  none, some, Result, ok, ◌>>=◌, ltb, ◌==◌, if◌then◌else◌, length, get_or, set, drop,
}
use fpga_pi_parallel_nids.Prelude.Bytes.{Bytes, zeros}
use fpga_pi_parallel_nids.Control.{encode_rule_write, encode_threshold_read, decode_threshold_read}
use fpga_pi_parallel_nids.Rules.{Rule}
use fpga_pi_parallel_nids.SpiLink.{frame_len, send_frame}
use fpga_pi_parallel_nids.Telemetry.{SnapResponse, telemetry_magic, decode_snapshot}
use fpga_pi_parallel_nids.Verdict.{Verdict}

abbrev pub a1 : ℕ
a1 = 0x9E3779B1

abbrev pub mask32 : ℕ
mask32 = 0xFFFFFFFF

abbrev pub op_snapshot : ℕ
op_snapshot = 0x02

abbrev pub thr_rule_epoch : ℕ
thr_rule_epoch = 0x03

abbrev pub verdicts_kept : ℕ
verdicts_kept = 12

unfoldable pub lookup_idx : ℕ → ℕ
lookup_idx ip = bit_and (bit_and (ip * a1) mask32 / 2 ^ 23) 0x1FF

-- The clock's readings are of a type `Time` of their own.
pub record PushedRule (Time : Type 0) : Type 0 where
  pub src_ip : ℕ
  pub idx : ℕ
  pub pushed_at_monotonic : Time

pub record DemoState (Name Time : Type 0) : Type 0 where
  pub scenario_name : Name
  pub start_monotonic : Time
  pub snapshot : Option SnapResponse
  pub pushed_rules : List (PushedRule Time)
  pub recent_verdicts : List Verdict
  pub rule_epoch : ℕ
  pub frames_sent : ℕ

-- `DemoState(scenario_name=…, start_monotonic=…, rule_epoch=…)`
unfoldable pub init : {Name Time : Type 0} → Name → Time → ℕ → DemoState Name Time
init name start epoch = record {
  scenario_name = name;
  start_monotonic = start;
  snapshot = none;
  pushed_rules = [];
  recent_verdicts = [];
  rule_epoch = epoch;
  frames_sent = 0;
}

-- `append` on a `deque` of bounded length: the oldest verdict falls out.
unfoldable pub record_verdict :
    {Name Time : Type 0} → DemoState Name Time → Verdict → DemoState Name Time
record_verdict state v =
    let longer = state.recent_verdicts ++ (v ∷ []) in
    record state { recent_verdicts = drop (length longer - verdicts_kept) longer }

unfoldable pub snap_frame : Bytes
snap_frame = set (zeros frame_len) 16 op_snapshot

-- `any(r.src_ip == key for r in rules)`
unfoldable pub is_pushed : {Time : Type 0} → List (PushedRule Time) → ℕ → Bool
is_pushed [] key = false
is_pushed (r ∷ rs) key = r.src_ip == key || is_pushed rs key

abbrev pub rule_for : {Name Time : Type 0} → DemoState Name Time → ℕ → ℕ → ℕ → Rule
rule_for state key action severity = record {
  src_ip = key;
  action = action;
  severity = severity;
  epoch = state.rule_epoch;
}

module _ {W : Type 0} (xfer2 : W → Bytes → W × Bytes) where
  unfoldable pub poll_snapshot :
      {Name Time : Type 0} → W → DemoState Name Time → Result (W × DemoState Name Time)
  unfolding send_frame
  poll_snapshot w state = do
    (w1, _) ← send_frame xfer2 w snap_frame
    (w2, rx) ← send_frame xfer2 w1 (zeros frame_len)
    if get_or rx 0 0 == telemetry_magic
        then (do s ← decode_snapshot rx; ok (w2, record state { snapshot = some s }))
        else ok (w2, state)

  unfoldable pub read_rule_epoch : W → Result (W × ℕ)
  unfolding send_frame
  read_rule_epoch w = do
    command ← encode_threshold_read thr_rule_epoch
    (w1, _) ← send_frame xfer2 w command
    (w2, rx) ← send_frame xfer2 w1 (zeros frame_len)
    answer ← decode_threshold_read rx
    ok (w2, bit_and answer.value 0xFF)

-- `W` is the state of the device and the clock; `xfer2` exchanges a frame and `monotonic` reads the
-- clock.
module _ {W Name Time : Type 0} (xfer2 : W → Bytes → W × Bytes) (monotonic : W → W × Time) where
  -- The part of `maybe_push_rule` behind its guards.
  unfoldable pub push_rule :
      W → DemoState Name Time → ℕ → ℕ → ℕ → Result (W × (DemoState Name Time × Bool))
  unfolding send_frame
  push_rule w state key action severity = do
    let idx = lookup_idx key
    command ← encode_rule_write idx (rule_for state key action severity)
    (w1, _) ← send_frame xfer2 w command
    (w2, _) ← send_frame xfer2 w1 (zeros frame_len)
    let (w3, now) = monotonic w2
    let pushed : PushedRule Time = record { src_ip = key; idx = idx; pushed_at_monotonic = now }
    ok (w3, (record state { pushed_rules = state.pushed_rules ++ (pushed ∷ []) }, true))

  unfoldable pub maybe_push_rule :
      W → DemoState Name Time → ℕ → ℕ → ℕ → Result (W × (DemoState Name Time × Bool))
  maybe_push_rule w state trigger action severity = elim state.snapshot [
    | none ↦ ok (w, (state, false))
    | some s ↦
        if ltb s.top1_count trigger
        then ok (w, (state, false))
        else if s.top1_key == 0
        then ok (w, (state, false))
        else if is_pushed state.pushed_rules s.top1_key
        then ok (w, (state, false))
        else push_rule w state s.top1_key action severity
  ]
