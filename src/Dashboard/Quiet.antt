-- ===== src/Dashboard/Quiet.antt =====
-- demo/dashboard.py: the log is quiet when nothing is new.
use fpga_pi_parallel_nids.Prelude.{
  ◌≡◌, inl, inr, Bool, Bool-cases, Option-cases, true, [], arith, ltb, length,
}
use fpga_pi_parallel_nids.Orchestrator.{DemoState}
use fpga_pi_parallel_nids.Dashboard.{
  HeadlessDashboard, is_scenario, scenario_lines, window_lines, rule_lines, verdict_lines, remember,
  render,
}

module _ {Name Time : Type 0} (same : Name → Name → Bool)
    (same_refl : (n : Name) → same n n ≡ true) where
  scenario_again :
      (d : HeadlessDashboard Name) (state : DemoState Name Time)
      → scenario_lines same (remember same d state) state ≡ []
  unfolding scenario_lines remember
  scenario_again d state =
      elim (Bool-cases (is_scenario same d.last_scenario state.scenario_name)) [
        | inl e ↦ ground (arith, e)
        | inr e ↦ ground (arith, e, same_refl state.scenario_name)
      ]

  window_again :
      (d : HeadlessDashboard Name) (state : DemoState Name Time)
      → window_lines same (remember same d state) state ≡ []
  unfolding window_lines remember
  window_again d state = elim (Option-cases state.snapshot) [
    | inl e ↦ ground (arith, e)
    | inr (s, e) ↦ ground (arith, e)
  ]

  rule_again :
      (d : HeadlessDashboard Name) (state : DemoState Name Time)
      → rule_lines same (remember same d state) state ≡ []
  unfolding rule_lines remember
  rule_again d state = elim (Bool-cases (ltb d.last_rule_count (length state.pushed_rules))) [
    | inl e ↦ ground (arith, e)
    | inr e ↦ ground (arith, e)
  ]

  remember_again :
      (d : HeadlessDashboard Name) (state : DemoState Name Time)
      → remember same (remember same d state) state ≡ remember same d state
  unfolding remember
  remember_again d state = ground (
    arith,
    same_refl state.scenario_name,
    Option-cases state.snapshot,
    Bool-cases (is_scenario same d.last_scenario state.scenario_name),
    Bool-cases (ltb d.last_rule_count (length state.pushed_rules)),
  )

  -- A second look at the same state logs nothing but the last verdict, if that is a threat, and
  -- changes nothing in the dashboard.
  pub render_again :
      (d : HeadlessDashboard Name) (state : DemoState Name Time)
      → render same (render same d state).0 state
        ≡ ((render same d state).0, verdict_lines same state)
  unfolding render
  render_again d state = ground (
    arith,
    remember_again d state,
    scenario_again d state,
    window_again d state,
    rule_again d state,
  )
