-- ===== src/Dashboard/Screen.antt =====
-- demo/dashboard.py: CursesDashboard. A text is a value of its parts, and `format` is what the
-- f-string makes of it, as a list of characters. Of curses there are the size of the window,
-- which stays as it is during a call of `render`, and the calls of `addstr` in their order, each
-- with the text that it paints; a call that fails is skipped by the source as well.
pub mod Painted
pub mod Texts
use fpga_pi_parallel_nids.Prelude.{
  ℕ, ◌+◌, ◌-◌, max, ◌||◌, List, [], ◌∷◌, ◌++◌, Option, none, some, leb, if◌then◌else◌, length, take,
  drop,
}
use fpga_pi_parallel_nids.Clock.{Clock}
use fpga_pi_parallel_nids.Dashboard.{Line, fmt_ip, verdict_line}
use fpga_pi_parallel_nids.Orchestrator.{DemoState, PushedRule}
use fpga_pi_parallel_nids.Telemetry.{SnapResponse}
use fpga_pi_parallel_nids.Verdict.{Verdict}

-- The window line has the window, the estimate of the sources, the top talker and its count; a bar
-- has its number of dashes, and a rule its source, slot and age.
pub data Text (Name Time : Type 0) : Type 0 where
  title : ℕ → Text Name Time
  status : Name → Time → ℕ → Text Name Time
  window_row : ℕ → ℕ → List ℕ → ℕ → Text Name Time
  warming_up : Text Name Time
  rules_bar : ℕ → Text Name Time
  rule_row : List ℕ → ℕ → Time → Text Name Time
  verdicts_bar : ℕ → Text Name Time
  verdict_row : Line Name → Text Name Time

pub data Attr : Type 0 where
  normal reverse dim : Attr
  color_pair : ℕ → Attr

abbrev pub color_ok : ℕ
color_ok = 1

abbrev pub color_bloom : ℕ
color_bloom = 2

abbrev pub color_threat : ℕ
color_threat = 3

abbrev pub color_rule : ℕ
color_rule = 4

unfoldable pub verdict_attr : Verdict → Attr
verdict_attr v =
    if v.rule_match_hit || v.escalate
    then color_pair color_threat
    else if v.bloom_hit || (v.port_scan_hit || v.rate_anomaly_hit)
    then color_pair color_bloom
    else color_pair color_ok

-- The texts of the third row, by the snapshot if there is one.
unfoldable pub window_text : {Name Time : Type 0} → Option SnapResponse → Text Name Time
window_text none = warming_up
window_text (some s) = window_row s.window (2048 - s.zeros) (fmt_ip s.top1_key) s.top1_count

-- A call of `addstr`, with the text before it is cut.
pub record Draw (Name Time C : Type 0) : Type 0 where
  pub row : ℕ
  pub column : ℕ
  pub text : Text Name Time
  pub painted : List C
  pub attr : Attr

-- `xs[-n:]`, for `n` above 0.
abbrev pub last_n : {A : Type 0} → ℕ → List A → List A
last_n n xs = drop (length xs - n) xs

abbrev pub row0 : ℕ
row0 = 11

module _ {W Name Time : Type 0} (clock : Clock W Time) where
  unfoldable pub rule_text : Time → Time → PushedRule Time → Text Name Time
  rule_text elapsed start r =
      rule_row (fmt_ip r.src_ip) r.idx (clock.sub elapsed (clock.sub r.pushed_at_monotonic start))

module _ {W Name Time C : Type 0} (clock : Clock W Time) (format : Text Name Time → List C)
    (h w : ℕ) where
  unfoldable pub safe_addstr : ℕ → ℕ → Text Name Time → Attr → List (Draw Name Time C)
  safe_addstr y x text attr =
      if leb h y || leb w x
      then []
      else record {
        row = y;
        column = x;
        text = text;
        painted = take (w - x - 1) (format text);
        attr = attr;
      }
        ∷ []

  -- The loop over the rules from the row `y`.
  unfoldable pub rule_rows : Time → Time → ℕ → List (PushedRule Time) → List (Draw Name Time C)
  rule_rows elapsed start y [] = []
  rule_rows elapsed start y (r ∷ rules) =
      safe_addstr y 1 (rule_text clock elapsed start r) (color_pair color_rule)
      ++ rule_rows elapsed start (y + 1) rules

  -- The loop over the verdicts from the row `y`.
  unfoldable pub verdict_rows : ℕ → List Verdict → List (Draw Name Time C)
  verdict_rows y [] = []
  verdict_rows y (v ∷ verdicts) =
      safe_addstr y 1 (verdict_row (verdict_line v)) (verdict_attr v)
      ++ verdict_rows (y + 1) verdicts

  -- `now` is the reading of time.monotonic.
  unfoldable pub render : Time → DemoState Name Time → List (Draw Name Time C)
  render now state =
      let elapsed = clock.sub now state.start_monotonic in
      safe_addstr 0 0 (title (w - 1)) reverse
      ++ (safe_addstr 1 0 (status state.scenario_name elapsed state.frames_sent) normal
          ++ (safe_addstr 2 0 (window_text state.snapshot) normal
              ++ (safe_addstr 4 0 (rules_bar (w - 17)) dim
                  ++ (rule_rows elapsed state.start_monotonic 5 (last_n 5 state.pushed_rules)
                      ++ (safe_addstr row0 0 (verdicts_bar (w - 20)) dim
                          ++ verdict_rows (row0 + 1)
                              (last_n (max 1 (h - row0 - 2)) state.recent_verdicts))))))
