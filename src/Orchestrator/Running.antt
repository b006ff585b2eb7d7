-- ===== src/Orchestrator/Running.antt =====
-- demo/orchestrator.py: the loop over a finite schedule.
use fpga_pi_parallel_nids.Prelude.{
  ℕ, zero, suc, ◌+◌, ◌≤◌, ◌<◌, ◌≡◌, ◌⊎◌, inl, inr, true, Option, none, some, ok, Bool-cases, arith,
  length,
}
use fpga_pi_parallel_nids.Prelude.Bytes.{Bytes}
use fpga_pi_parallel_nids.Clock.{Clock}
use fpga_pi_parallel_nids.Orchestrator.{DemoState, init, read_rule_epoch}
use fpga_pi_parallel_nids.Orchestrator.Sound.{
  IsSound, IsCount, IsCount-exact, IsCount-same, init-IsSound,
}
use fpga_pi_parallel_nids.Orchestrator.Poll.{AnswersBytes}
use fpga_pi_parallel_nids.Orchestrator.Loop.{
  Schedule, Options, paint, time_up, run_ticks, run_loop, deadline,
}
use fpga_pi_parallel_nids.Orchestrator.Ticks.{tick_body_total}

-- What the loop relies on in a schedule: a source of finitely many frames of 32 bytes, which has a
-- name for every time.
pub record IsFinite {W Name Time I : Type 0} (schedule : Schedule W Name Time I) (remaining : I → ℕ)
    : Type 0 where
  pub next_frame :
      (w : W) (i : I)
      → ((w1 : W) × (schedule.next w i ≡ ok (w1, none)) × (remaining i ≡ 0))
        ⊎ ((w1 : W) × (f : Bytes) × (rest : I) × (schedule.next w i ≡ ok (w1, some (f, rest)))
            × (length f ≡ 32)
            × (remaining i ≡ suc (remaining rest)))
  pub names : (t : Time) → (name : Name) × (schedule.active_name t ≡ ok name)

module _ {W Name Time I : Type 0} (xfer2 : W → Bytes → W × Bytes) (clock : Clock W Time)
    (schedule : Schedule W Name Time I) (options : Options W Name Time) (link : AnswersBytes xfer2)
    (remaining : I → ℕ) (finite : IsFinite schedule remaining) where
  IsCount-early :
      (w : W) (end_at : Option Time) (sent n : ℕ)
      → sent ≤ n
      → (time_up xfer2 clock schedule options w end_at).1 ≡ true
      → IsCount end_at sent n
  unfolding time_up
  IsCount-early w none sent n le over = ground arith
  IsCount-early w (some t) sent n le over = le

  run_ticks_total :
      (fuel : ℕ) (w : W) (state : DemoState Name Time) (end_at : Option Time) (iter : I)
      (next_tick : Time) (tick : ℕ)
      → remaining iter < fuel
      → IsSound state
      → (w1 : W) × (after : DemoState Name Time) × (run_ticks xfer2 clock schedule options fuel w
            state end_at iter next_tick tick
          ≡ some (ok (w1, after)))
        × IsSound after
        × IsCount end_at after.frames_sent (state.frames_sent + remaining iter)
  unfolding run_ticks
  run_ticks_total zero w state end_at iter next_tick tick enough sound = absurd (omega arith)
  run_ticks_total (suc fuel) w state end_at iter next_tick tick enough sound =
      let (w0, over) = time_up xfer2 clock schedule options w end_at in
      elim (Bool-cases over) [
        | inl t ↦ (
          w0,
          state,
          ground (arith, t),
          sound,
          IsCount-early w end_at state.frames_sent (state.frames_sent + remaining iter)
              (omega arith) t,
        )
        | inr t ↦ elim (finite.next_frame w0 iter) [
          | inl (w1, e, done) ↦ (
            w1,
            state,
            ground (arith, t, e),
            sound,
            IsCount-exact end_at state.frames_sent (state.frames_sent + remaining iter)
                (omega arith),
          )
          | inr (w1, f, rest, e, size, more) ↦
              let (w2, after, next, b, after-IsSound, one) =
                tick_body_total xfer2 clock schedule options link finite.names w1 state next_tick
                  tick f size sound in
              let (w3, last, r, last-IsSound, count) =
                run_ticks_total fuel w2 after end_at rest next (tick + 1) (omega arith)
                  after-IsSound in
              (
                w3,
                last,
                ground (arith, t, e, b, r),
                last-IsSound,
                IsCount-same end_at last.frames_sent (after.frames_sent + remaining rest)
                    (state.frames_sent + remaining iter) (omega (arith, one)) count,
              )
        ]
      ]

  deadline-IsCount :
      (duration : Option Time) (start : Time) (sent n : ℕ)
      → IsCount (deadline xfer2 clock schedule options duration start) sent n
      → IsCount duration sent n
  deadline-IsCount none start sent n count = count
  deadline-IsCount (some t) start sent n count = count

  -- The loop returns: over a schedule of finitely many frames of 32 bytes with a name for every
  -- time, on a link that answers as many bytes as it is given, and with more fuel than frames,
  -- `run_loop` returns whatever the answers are, once the rule epoch is read. In the end the log
  -- of rules is valid, the snapshot fits its frame, at most 12 verdicts are kept and all of them
  -- are valid ones; all frames are sent when there is no time limit, and no more than all when
  -- there is one.
  pub run_loop_total :
      (fuel : ℕ) (w w1 : W) (epoch : ℕ)
      → remaining schedule.frames < fuel
      → read_rule_epoch xfer2 w ≡ ok (w1, epoch)
      → (w2 : W) × (after : DemoState Name Time) × (run_loop xfer2 clock schedule options fuel w
          ≡ some (ok (w2, after)))
        × IsSound after
        × IsCount options.duration_s after.frames_sent (remaining schedule.frames)
  unfolding run_loop
  run_loop_total fuel w w1 epoch enough read =
      let (w2, start) = clock.monotonic w1 in
      let (w3, next_tick) = clock.monotonic w2 in
      let (w4, after, e, sound, count) =
        run_ticks_total fuel w3 (init options.starting start epoch)
          (deadline xfer2 clock schedule options options.duration_s start) schedule.frames next_tick
          0 enough (init-IsSound options.starting start epoch) in
      (
        paint xfer2 clock schedule options w4 after,
        after,
        ground (arith, read, e),
        sound,
        deadline-IsCount options.duration_s start after.frames_sent (remaining schedule.frames) (
            IsCount-same (deadline xfer2 clock schedule options options.duration_s start)
              after.frames_sent
              ((init options.starting start epoch).frames_sent + remaining schedule.frames)
              (remaining schedule.frames) (unfold init in omega arith) count),
      )
