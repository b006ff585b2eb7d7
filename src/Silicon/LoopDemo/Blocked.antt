-- ===== src/Silicon/LoopDemo/Blocked.antt =====
-- silicon_loop_demo.py: the demo against a board that looks its rules up as the model does.
use fpga_pi_parallel_nids.Prelude.{
  ℕ, ◌-◌, ◌<◌, ◌≤◌, ◌≡◌, Bool, true, false, Option, none, some, Result, ok,
}
use fpga_pi_parallel_nids.Prelude.Bytes.{Bytes, zeros}
use fpga_pi_parallel_nids.Clock.{Clock}
use fpga_pi_parallel_nids.Orchestrator.Poll.{AnswersBytes}
use fpga_pi_parallel_nids.Rules
use fpga_pi_parallel_nids.Rules.{Rule, Match}
use fpga_pi_parallel_nids.Telemetry.{SnapResponse}
use fpga_pi_parallel_nids.Silicon.LoopDemo.{snap_frame, flood_src}

abbrev pub is_some : Option SnapResponse → Bool
is_some none = false
is_some (some s) = true

abbrev pub IsFlood : Option SnapResponse → Type 0
IsFlood none = Unit {0}
IsFlood (some s) = s.top1_key ≡ flood_src

module _ {W Time : Type 0} (xfer2 : W → Bytes → W × Bytes) (link : AnswersBytes xfer2)
    (clock : Clock W Time) (deadline_s pause_s : Time) where
  -- The world after a poll.
  abbrev polled_world : W → W
  polled_world w = (xfer2 (xfer2 w snap_frame).0 (zeros 32)).0

-- What the clock gives for a deadline: the time left, in some unit, is positive before it; reading
-- the clock and transfers never raise it, a pause lowers it, and it is at most `limit` when the
-- deadline is set.
pub record RunsOut {W Time : Type 0} (xfer2 : W → Bytes → W × Bytes) (clock : Clock W Time)
    (deadline_s pause_s : Time) (left : Time → W → ℕ) (limit : ℕ) : Type 0 where
  pub most :
      (w : W) → left (clock.add (clock.monotonic w).1 deadline_s) (clock.monotonic w).0 ≤ limit
  pub before_left :
      (d : Time) (w : W)
      → clock.before (clock.monotonic w).1 d ≡ true
      → 0 < left d (clock.monotonic w).0
  pub reading : (d : Time) (w : W) → left d (clock.monotonic w).0 ≤ left d w
  pub transfer : (d : Time) (w : W) (f : Bytes) → left d (xfer2 w f).0 ≤ left d w
  pub pausing : (d : Time) (w : W) → left d (clock.sleep pause_s w) ≤ left d w - 1

module _ {W Time : Type 0} (xfer2 : W → Bytes → W × Bytes) (link : AnswersBytes xfer2)
    (clock : Clock W Time) (deadline_s pause_s : Time) (left : Time → W → ℕ) (limit : ℕ)
    (time : RunsOut xfer2 clock deadline_s pause_s left limit) where
  abbrev Ends : Option (Result (W × Option SnapResponse)) → Type 0
  Ends r = (w1 : W) × (o : Option SnapResponse) × (r ≡ some (ok (w1, o))) × IsFlood o
