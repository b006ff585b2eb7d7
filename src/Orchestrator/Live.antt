-- ===== src/Orchestrator/Live.antt =====
-- demo/orchestrator.py: the loop over a schedule without an end.
use fpga_pi_parallel_nids.Prelude.{
  ℕ, zero, suc, ◌+◌, ◌≡◌, refl, ◌⊎◌, inl, inr, Option, none, some, Result, ok, Bool-cases, arith,
  length,
}
use fpga_pi_parallel_nids.Prelude.Bytes.{Bytes}
use fpga_pi_parallel_nids.Clock.{Clock}
use fpga_pi_parallel_nids.Orchestrator.{DemoState, init, read_rule_epoch}
use fpga_pi_parallel_nids.Orchestrator.Sound.{IsSound, init-IsSound}
use fpga_pi_parallel_nids.Orchestrator.Poll.{AnswersBytes}
use fpga_pi_parallel_nids.Orchestrator.Loop.{
  Schedule, Options, paint, time_up, run_ticks, run_loop, deadline,
}
use fpga_pi_parallel_nids.Orchestrator.Ticks.{tick_body_total}

-- What the loop relies on in a schedule: from a state of `IsState` it ends, or gives a frame of 32
-- bytes and goes on in such a state, and it has a name for every time.
pub record IsLive {W Name Time I : Type 0} (schedule : Schedule W Name Time I)
    (IsState : I → Type 0) : Type 0 where
  pub next_frame :
      (w : W) (i : I)
      → IsState i
      → ((w1 : W) × (schedule.next w i ≡ ok (w1, none)))
        ⊎ ((w1 : W) × (f : Bytes) × (rest : I) × (schedule.next w i ≡ ok (w1, some (f, rest)))
            × (length f ≡ 32)
            × IsState rest)
  pub first_state : IsState schedule.frames
  pub names : (t : Time) → (name : Name) × (schedule.active_name t ≡ ok name)

-- A run that is still going on, or that returned a sound state: it did not raise.
abbrev pub RunsWell : {W Name Time : Type 0} → Option (Result (W × DemoState Name Time)) → Type 0
RunsWell {W} {Name} {Time} r =
    (r ≡ none)
    ⊎ ((w1 : W) × (after : DemoState Name Time) × (r ≡ some (ok (w1, after))) × IsSound after)

module _ {W Name Time I : Type 0} (xfer2 : W → Bytes → W × Bytes) (clock : Clock W Time)
    (schedule : Schedule W Name Time I) (options : Options W Name Time) (link : AnswersBytes xfer2)
    {IsState : I → Type 0} (live : IsLive schedule IsState) where
  run_ticks_live :
      (fuel : ℕ) (w : W) (state : DemoState Name Time) (end_at : Option Time) (iter : I)
      (next_tick : Time) (tick : ℕ)
      → IsState iter
      → IsSound state
      → RunsWell (run_ticks xfer2 clock schedule options fuel w state end_at iter next_tick tick)
  unfolding run_ticks
  run_ticks_live zero w state end_at iter next_tick tick good sound = inl refl
  run_ticks_live (suc fuel) w state end_at iter next_tick tick good sound =
      let (w0, over) = time_up xfer2 clock schedule options w end_at in
      elim (Bool-cases over) [
        | inl t ↦ inr (w0, state, ground (arith, t), sound)
        | inr t ↦ elim (live.next_frame w0 iter good) [
          | inl (w1, e) ↦ inr (w1, state, ground (arith, t, e), sound)
          | inr (w1, f, rest, e, size, good_rest) ↦
              let (w2, after, next, b, after-IsSound, one) =
                tick_body_total xfer2 clock schedule options link live.names w1 state next_tick tick
                  f size sound in
              elim (run_ticks_live fuel w2 after end_at rest next (tick + 1) good_rest
                after-IsSound) [
                  | inl r ↦ inl (ground (arith, t, e, b, r))
                  | inr (w3, last, r, last-IsSound) ↦
                      inr (w3, last, ground (arith, t, e, b, r), last-IsSound)
                ]
        ]
      ]

  -- The loop never raises: over a schedule that always goes on or ends, with frames of 32 bytes
  -- and a name for every time, on a link that answers as many bytes as it is given, once the rule
  -- epoch is read, in any number of turns it is still running or has returned with a valid log of
  -- rules, a snapshot that fits its frame and at most 12 verdicts, all of them valid ones.
  pub run_loop_live :
      (fuel : ℕ) (w w1 : W) (epoch : ℕ)
      → read_rule_epoch xfer2 w ≡ ok (w1, epoch)
      → RunsWell (run_loop xfer2 clock schedule options fuel w)
  unfolding run_loop
  run_loop_live fuel w w1 epoch read =
      let (w2, start) = clock.monotonic w1 in
      let (w3, next_tick) = clock.monotonic w2 in
      elim (run_ticks_live fuel w3 (init options.starting start epoch)
        (deadline xfer2 clock schedule options options.duration_s start) schedule.frames next_tick 0
        live.first_state (init-IsSound options.starting start epoch)) [
          | inl r ↦ inl (ground (arith, read, r))
          | inr (w4, after, r, sound) ↦
              inr
                (paint xfer2 clock schedule options w4 after, after, ground (arith, read, r), sound)
        ]
