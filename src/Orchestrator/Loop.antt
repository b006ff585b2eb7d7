-- ===== src/Orchestrator/Loop.antt =====
-- demo/orchestrator.py: the event loop `run_loop`. The schedule, the dashboard, the clock and the
-- transfer are injected there, and are parameters here.
use fpga_pi_parallel_nids.Prelude.{
  ℕ, zero, suc, ◌+◌, ◌%◌, Bool, true, false, not, ◌&&◌, Option, none, some, Result, ok, raise,
  ◌>>=◌, ltb, ◌==◌, if◌then◌else◌,
}
use fpga_pi_parallel_nids.Prelude.Bytes.{Bytes}
use fpga_pi_parallel_nids.Clock.{Clock}
use fpga_pi_parallel_nids.SpiLink.{send_frame}
use fpga_pi_parallel_nids.Verdict.{decode_verdict}
use fpga_pi_parallel_nids.Orchestrator.{
  DemoState, init, record_verdict, poll_snapshot, read_rule_epoch, maybe_push_rule,
}

-- What the loop uses of a schedule: the iterator `frames(…)`, its `next` (`none` is StopIteration),
-- and `active_name`.
pub record Schedule (W Name Time I : Type 0) : Type 0 where
  pub frames : I
  pub next : W → I → Result (W × Option (Bytes × I))
  pub active_name : Time → Result Name

-- The keyword arguments of `run_loop`; a `snap_every` below 1 is 0, as the test on it takes them
-- alike, and `render` is the dashboard's, if there is one.
pub record Options (W Name Time : Type 0) : Type 0 where
  pub starting : Name
  pub render : Option (W → DemoState Name Time → W)
  pub trigger : ℕ
  pub snap_every : ℕ
  pub fps : Time
  pub duration_s : Option Time

abbrev pub default_action : ℕ
default_action = 0b101

abbrev pub default_severity : ℕ
default_severity = 3

module _ {W Name Time I : Type 0} (xfer2 : W → Bytes → W × Bytes) (clock : Clock W Time)
    (schedule : Schedule W Name Time I) (options : Options W Name Time) where
  -- `if dashboard is not None: dashboard.render(state)`
  unfoldable pub paint : W → DemoState Name Time → W
  paint w state = elim options.render [ none ↦ w | some render ↦ render w state ]

  -- `1.0 / fps if fps > 0 else 0.0`
  abbrev pub tick_interval : Time
  tick_interval =
      if clock.before clock.zero_s options.fps then clock.inverse options.fps else clock.zero_s

  -- The end of the loop's body: the wait for the next tick, or the recovery after a slow one.
  unfoldable pub pace : W → Time → W × Time
  pace w next_tick =
      if clock.before clock.zero_s tick_interval
      then (let due = clock.add next_tick tick_interval in
          let (w1, now) = clock.monotonic w in
          let delay = clock.sub due now in
          if clock.before clock.zero_s delay
          then (clock.sleep delay w1, due)
          else clock.monotonic w1)
      else (w, next_tick)

  -- Whether this tick polls: `snap_every > 0 and tick > 0 and tick % snap_every == 0`.
  abbrev pub polls : ℕ → Bool
  polls tick = ltb 0 options.snap_every && (ltb 0 tick && tick % options.snap_every == 0)

  unfoldable pub observe : W → DemoState Name Time → Result (W × DemoState Name Time)
  observe w state = do
    (w1, polled) ← poll_snapshot xfer2 w state
    (w2, (after, _)) ←
        maybe_push_rule xfer2 clock.monotonic w1 polled options.trigger default_action
          default_severity
    ok (paint w2 after, after)

  -- The exchange of one frame, with the verdict that comes back.
  unfoldable pub exchange : W → DemoState Name Time → Bytes → Result (W × DemoState Name Time)
  exchange w state frame = do
    let (w1, now) = clock.monotonic w
    name ← schedule.active_name (clock.sub now state.start_monotonic)
    (w2, rx) ← send_frame xfer2 w1 frame
    let sent : DemoState Name Time = record state {
      scenario_name = name;
      frames_sent = state.frames_sent + 1;
    }
    v ← decode_verdict rx
    ok (w2, (if v.valid then record_verdict sent v else sent))

  -- The body of the loop, behind the frame that was pulled.
  unfoldable pub tick_body :
      W → DemoState Name Time → Time → ℕ → Bytes → Result (W × (DemoState Name Time × Time))
  tick_body w state next_tick tick frame = do
    (w1, heard) ← exchange w state frame
    (w2, after) ← if polls tick then observe w1 heard else ok (w1, heard)
    let (w3, next) = pace w2 next_tick
    ok (w3, (after, next))

  -- `end_at`
  abbrev pub deadline : Option Time → Time → Option Time
  deadline none start = none
  deadline (some duration) start = some (clock.add start duration)

  -- `end_at is not None and monotonic() >= end_at`
  unfoldable pub time_up : W → Option Time → W × Bool
  time_up w none = (w, false)
  time_up w (some end_at) = let (w1, now) = clock.monotonic w in (w1, not (clock.before now end_at))

  -- The `while` loop; `none` means that the fuel ran out.
  unfoldable pub run_ticks :
      ℕ
      → W
      → DemoState Name Time
      → Option Time
      → I
      → Time
      → ℕ
      → Option (Result (W × DemoState Name Time))
  run_ticks zero w state end_at iter next_tick tick = none
  run_ticks (suc fuel) w state end_at iter next_tick tick =
      let (w0, over) = time_up w end_at in
      elim over [
        | true ↦ some (ok (w0, state))
        | false ↦ elim (schedule.next w0 iter) [
          | raise e ↦ some (raise e)
          | ok (w1, pulled) ↦ elim pulled [
            | none ↦ some (ok (w1, state))
            | some (frame, rest) ↦ elim (tick_body w1 state next_tick tick frame) [
              | raise e ↦ some (raise e)
              | ok (w2, (after, next)) ↦ run_ticks fuel w2 after end_at rest next (tick + 1)
            ]
          ]
        ]
      ]

  -- The final paint.
  abbrev pub finish :
      Option (Result (W × DemoState Name Time)) → Option (Result (W × DemoState Name Time))
  finish none = none
  finish (some (raise e)) = some (raise e)
  finish (some (ok (w, state))) = some (ok (paint w state, state))

  unfoldable pub run_loop : ℕ → W → Option (Result (W × DemoState Name Time))
  run_loop fuel w = elim (read_rule_epoch xfer2 w) [
    | raise e ↦ some (raise e)
    | ok (w1, epoch) ↦
        let (w2, start) = clock.monotonic w1 in
        let state = init options.starting start epoch in
        let (w3, next_tick) = clock.monotonic w2 in
        finish
          (run_ticks fuel w3 state (deadline options.duration_s start) schedule.frames next_tick 0)
  ]
