-- ===== src/Dashboard.antt =====
-- demo/dashboard.py: HeadlessDashboard, with its lines by their parts. The time in front of a line
-- is left out.
pub mod Quiet
pub mod Screen
use fpga_pi_parallel_nids.Prelude.{
  ℕ, ◌-◌, ◌/◌, ◌*◌, ◌^◌, bit_and, Bool, true, false, not, ◌&&◌, ◌||◌, List, [], ◌∷◌, ◌++◌, Option,
  none, some, ltb, ◌==◌, if◌then◌else◌, length,
}
use fpga_pi_parallel_nids.Telemetry.{SnapResponse}
use fpga_pi_parallel_nids.Orchestrator.{DemoState, PushedRule}
use fpga_pi_parallel_nids.Verdict.{
  Verdict, Stage, bloom, port_scan, rate_anomaly, rule_match, threats,
}

-- The four numbers of `_fmt_ip`.
unfoldable pub fmt_ip : ℕ → List ℕ
fmt_ip ip =
    bit_and (ip / 2 ^ 24) 0xFF
    ∷ bit_and (ip / 2 ^ 16) 0xFF
    ∷ bit_and (ip / 2 ^ 8) 0xFF
    ∷ bit_and (ip / 2 ^ 0) 0xFF
    ∷ []

-- The lines: the scenario; the window with its total, top talker, count and the frames sent; the
-- rule with its source and slot; and the verdict by what `_verdict_line` shows of it.
pub data Line (Name : Type 0) : Type 0 where
  scenario : Name → Line Name
  window : ℕ → ℕ → List ℕ → ℕ → ℕ → Line Name
  rule : List ℕ → ℕ → Line Name
  verdict : ℕ → List Stage → ℕ → Bool → Line Name

-- `v.bloom_hit or v.port_scan or v.rate_anomaly or v.rule_match`
abbrev pub has_threat : Verdict → Bool
has_threat v = v.bloom_hit || (v.port_scan_hit || (v.rate_anomaly_hit || v.rule_match_hit))

unfoldable pub verdict_line : {Name : Type 0} → Verdict → Line Name
verdict_line v = verdict v.seq (threats v) v.severity v.escalate

pub record HeadlessDashboard (Name : Type 0) : Type 0 where
  pub last_window : Option ℕ
  pub last_rule_count : ℕ
  pub last_scenario : Option Name

unfoldable pub init : {Name : Type 0} → HeadlessDashboard Name
init = record { last_window = none; last_rule_count = 0; last_scenario = none }

-- `xs[-1]`, `none` for the empty list.
abbrev pub last_of : {A : Type 0} → List A → Option A
last_of [] = none
last_of (x ∷ []) = some x
last_of (x ∷ y ∷ xs) = last_of (y ∷ xs)

-- Whether a name or a window is the last one; `same` is the equality of names.
abbrev pub is_scenario : {Name : Type 0} → (Name → Name → Bool) → Option Name → Name → Bool
is_scenario same none name = false
is_scenario same (some last) name = same last name

abbrev pub is_window : Option ℕ → ℕ → Bool
is_window none w = false
is_window (some last) w = last == w

module _ {Name Time : Type 0} (same : Name → Name → Bool) where
  unfoldable pub scenario_lines : HeadlessDashboard Name → DemoState Name Time → List (Line Name)
  scenario_lines d state =
      if is_scenario same d.last_scenario state.scenario_name
      then []
      else scenario state.scenario_name ∷ []

  unfoldable pub window_lines : HeadlessDashboard Name → DemoState Name Time → List (Line Name)
  window_lines d state = elim state.snapshot [
    | none ↦ []
    | some s ↦
        if is_window d.last_window s.window
        then []
        else window s.window s.total (fmt_ip s.top1_key) s.top1_count state.frames_sent ∷ []
  ]

  unfoldable pub rule_lines : HeadlessDashboard Name → DemoState Name Time → List (Line Name)
  rule_lines d state =
      if ltb d.last_rule_count (length state.pushed_rules)
      then elim (last_of state.pushed_rules) [
        | none ↦ []
        | some r ↦ rule (fmt_ip r.src_ip) r.idx ∷ []
      ]
      else []

  unfoldable pub verdict_lines : DemoState Name Time → List (Line Name)
  verdict_lines state = elim (last_of state.recent_verdicts) [
    | none ↦ []
    | some v ↦ if has_threat v then verdict_line v ∷ [] else []
  ]

  -- What `render` remembers.
  unfoldable pub remember : HeadlessDashboard Name → DemoState Name Time → HeadlessDashboard Name
  remember d state = record {
    last_window = elim state.snapshot [ none ↦ d.last_window | some s ↦ some s.window ];
    last_rule_count =
        (if ltb d.last_rule_count (length state.pushed_rules)
          then length state.pushed_rules
          else d.last_rule_count);
    last_scenario =
        (if is_scenario same d.last_scenario state.scenario_name
          then d.last_scenario
          else some state.scenario_name);
  }

  unfoldable pub render :
      HeadlessDashboard Name → DemoState Name Time → HeadlessDashboard Name × List (Line Name)
  render d state = (
    remember d state,
    scenario_lines d state ++ (window_lines d state ++ (rule_lines d state ++ verdict_lines state)),
  )
