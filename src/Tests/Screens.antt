-- ===== src/Tests/Screens.antt =====
-- Instances for the terminal dashboard of demo/dashboard.py.
use fpga_pi_parallel_nids.Prelude.{ℕ, ◌+◌, ◌-◌, max, true, false, List, [], ◌∷◌, none, replicate}
use fpga_pi_parallel_nids.Dashboard.Screen.{Text, render}
use fpga_pi_parallel_nids.Dashboard.Screen.Painted.{IsPainted, render-IsPainted}
use fpga_pi_parallel_nids.Orchestrator.{DemoState}
use fpga_pi_parallel_nids.Verdict.{Verdict}
use fpga_pi_parallel_nids.Tests.Sources.{still}

abbrev alarm : ℕ → Verdict
alarm n = record {
  valid = true;
  bloom_hit = true;
  port_scan_hit = false;
  rate_anomaly_hit = false;
  rule_match_hit = false;
  severity = 3;
  escalate = true;
  seq = n;
}

-- A state with six rules and three verdicts.
abbrev shown_state : DemoState ℕ ℕ
shown_state = record {
  scenario_name = 7;
  start_monotonic = 100;
  snapshot = none;
  pushed_rules = replicate 6 (record { src_ip = 0xCB007105; idx = 17; pushed_at_monotonic = 105 });
  recent_verdicts = alarm 1 ∷ alarm 2 ∷ alarm 3 ∷ [];
  rule_epoch = 0;
  frames_sent = 40;
}

-- Every text has thirty characters.
abbrev thirty : Text ℕ ℕ → List ℕ
thirty text = replicate 30 0x2D

render-IsPainted_example :
    IsPainted 7 20 0 (12 + max 1 (7 - 13)) (render still thirty 7 20 110 shown_state)
render-IsPainted_example = render-IsPainted still thirty 7 20 110 shown_state
