-- ===== src/Ber/Ramp.antt =====
-- spi_ber_ramp.py: `main` over the clocks. A link is opened for each clock, and what answers on it
-- may depend on the clock; `getrandbits` is that of random.Random. The rates in frames per second
-- are left out.
pub mod Highest
pub mod Ceiling
use fpga_pi_parallel_nids.Prelude.{
  ℕ, zero, suc, ◌*◌, List, [], ◌∷◌, Option, none, some, Result, ok, ◌>>=◌, ◌==◌, if◌then◌else◌,
}
use fpga_pi_parallel_nids.Prelude.Bytes.{Bytes}
use fpga_pi_parallel_nids.Ber.{RampResult, run_one}
use fpga_pi_parallel_nids.SpiLink.{frame_len}

abbrev pub default_clocks_mhz : List ℕ
default_clocks_mhz = 1 ∷ 5 ∷ 10 ∷ 15 ∷ 20 ∷ 25 ∷ 30 ∷ []

-- A printed row: the clock and its numbers.
abbrev pub Step : Type 0
Step = ℕ × RampResult

module _ {R : Type 0} (seeded : ℕ → R) (getrandbits : R → ℕ → R × ℕ) where
  -- `bytes(rng.getrandbits(8) for _ in range(n))`
  unfoldable pub draw_bytes : ℕ → R → R × Bytes
  draw_bytes zero rng = (rng, [])
  draw_bytes (suc n) rng =
      let (rng1, b) = getrandbits rng 8 in let (rng2, bs) = draw_bytes n rng1 in (rng2, b ∷ bs)

  unfoldable pub draw_frames : ℕ → R → List Bytes
  draw_frames zero rng = []
  draw_frames (suc n) rng =
      let (rng1, frame) = draw_bytes frame_len rng in frame ∷ draw_frames n rng1

  module _ {W : Type 0} (xfer2 : ℕ → W → Bytes → W × Bytes) where
    -- The loop over the clocks, with the ceiling so far.
    unfoldable pub ramp_from : ℕ → ℕ → W → Option ℕ → List ℕ → Result (W × (List Step × Option ℕ))
    ramp_from frames seed w ceiling [] = ok (w, ([], ceiling))
    ramp_from frames seed w ceiling (mhz ∷ clocks) = do
      (w1, r) ← run_one (xfer2 (mhz * 1000000)) w (draw_frames frames (seeded seed))
      let ceiling1 = if r.frame_errors == 0 then some mhz else ceiling
      (w2, (steps, highest)) ← ramp_from frames seed w1 ceiling1 clocks
      ok (w2, ((mhz, r) ∷ steps, highest))

    unfoldable pub ramp : ℕ → ℕ → List ℕ → W → Result (W × (List Step × Option ℕ))
    ramp frames seed clocks_mhz w = ramp_from frames seed w none clocks_mhz
