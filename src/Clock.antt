-- ===== src/Clock.antt =====
-- time.monotonic, time.sleep and the arithmetic of their floating-point seconds, as a parameter:
-- `W` is the state of everything outside the program, and `Time` the type of the readings.
use fpga_pi_parallel_nids.Prelude.{Bool}

pub record Clock (W Time : Type 0) : Type 0 where
  pub zero_s : Time
  pub add : Time → Time → Time
  pub sub : Time → Time → Time
  -- `1.0 / t`
  pub inverse : Time → Time
  -- `a < b`
  pub before : Time → Time → Bool
  pub monotonic : W → W × Time
  pub sleep : Time → W → W
