-- ===== src/Orchestrator/Ticks.antt =====
-- demo/orchestrator.py: one turn of the loop.
use fpga_pi_parallel_nids.Prelude.{ℕ, ◌+◌, ◌≡◌, refl, inl, inr, ok, Bool-cases, arith, ◌∙◌, length}
use fpga_pi_parallel_nids.Prelude.Bytes.{Bytes}
use fpga_pi_parallel_nids.Clock.{Clock}
use fpga_pi_parallel_nids.SpiLink.{send_frame}
use fpga_pi_parallel_nids.Orchestrator.{DemoState, record_verdict}
use fpga_pi_parallel_nids.Orchestrator.Sound.{
  IsSound, decode_verdict_received, record_verdict-IsSound,
}
use fpga_pi_parallel_nids.Orchestrator.Push.{maybe_push_rule_total}
use fpga_pi_parallel_nids.Orchestrator.Poll.{some-IsReceived, AnswersBytes, poll_snapshot_total}
use fpga_pi_parallel_nids.Orchestrator.Loop.{
  Schedule, Options, default_action, default_severity, paint, polls, pace, observe, exchange,
  tick_body,
}

module _ {W Name Time I : Type 0} (xfer2 : W → Bytes → W × Bytes) (clock : Clock W Time)
    (schedule : Schedule W Name Time I) (options : Options W Name Time) (link : AnswersBytes xfer2)
    (names : (t : Time) → (name : Name) × (schedule.active_name t ≡ ok name)) where
  exchange_total :
      (w : W) (state : DemoState Name Time) (frame : Bytes)
      → length frame ≡ 32
      → IsSound state
      → (w1 : W) × (after : DemoState Name Time) × (exchange xfer2 clock schedule options w state
            frame
          ≡ ok (w1, after))
        × IsSound after
        × (after.frames_sent ≡ state.frames_sent + 1)
  unfolding exchange send_frame
  exchange_total w state frame size sound =
      let (w1, now) = clock.monotonic w in
      let (name, named) = names (clock.sub now state.start_monotonic) in
      let (w2, rx) = xfer2 w1 frame in
      let (v, e) = decode_verdict_received rx (link.answer_length w1 frame ∙ size) in
      let sent : DemoState Name Time = record state {
        scenario_name = name;
        frames_sent = state.frames_sent + 1;
      } in
      let sent-IsSound : IsSound sent = record {
        log = sound.log;
        received = sound.received;
        kept = sound.kept;
        all_valid = sound.all_valid;
      } in
      elim (Bool-cases v.valid) [
        | inl t ↦ (
          w2,
          record_verdict sent v,
          ground (arith, named, size, e, t),
          record_verdict-IsSound sent v sent-IsSound t,
          unfold record_verdict in refl,
        )
        | inr t ↦ (w2, sent, ground (arith, named, size, e, t), sent-IsSound, refl)
      ]

  observe_total :
      (w : W) (state : DemoState Name Time)
      → IsSound state
      → (w1 : W) × (after : DemoState Name Time) × (observe xfer2 clock schedule options w state
          ≡ ok (w1, after))
        × IsSound after
        × (after.frames_sent ≡ state.frames_sent)
  unfolding observe
  observe_total w state sound =
      let (w1, o, e, fits) = poll_snapshot_total xfer2 link w state sound.received in
      let (w2, rules, p, more, v) =
        maybe_push_rule_total xfer2 clock.monotonic w1 (record state { snapshot = o })
          options.trigger default_action default_severity sound.log
          (λ s same. (some-IsReceived o s fits same).key_bits) in
      (
        paint xfer2 clock schedule options w2 (record state { snapshot = o; pushed_rules = rules }),
        record state { snapshot = o; pushed_rules = rules },
        ground (arith, e, p),
        record { log = v; received = fits; kept = sound.kept; all_valid = sound.all_valid },
        refl,
      )

  pub tick_body_total :
      (w : W) (state : DemoState Name Time) (next_tick : Time) (tick : ℕ) (frame : Bytes)
      → length frame ≡ 32
      → IsSound state
      → (w1 : W) × (after : DemoState Name Time) × (next : Time) × (tick_body xfer2 clock schedule
            options w state next_tick tick frame
          ≡ ok (w1, (after, next)))
        × IsSound after
        × (after.frames_sent ≡ state.frames_sent + 1)
  unfolding tick_body
  tick_body_total w state next_tick tick frame size sound =
      let (w1, heard, e, heard-IsSound, one) = exchange_total w state frame size sound in
      elim (Bool-cases (polls xfer2 clock schedule options tick)) [
        | inl p ↦
            let (w2, after, o, after-IsSound, same) = observe_total w1 heard heard-IsSound in
            let (w3, next) = pace xfer2 clock schedule options w2 next_tick in
            (w3, after, next, ground (arith, e, o, p), after-IsSound, omega (arith, one, same))
        | inr p ↦
            let (w3, next) = pace xfer2 clock schedule options w1 next_tick in
            (w3, heard, next, ground (arith, e, p), heard-IsSound, one)
      ]
