-- ===== src/Ber.antt =====
-- ber.py: the errors of a delayed echo of frames, and `run_one` of spi_ber_ramp.py without its
-- clock. random.Random's frames are a parameter there.
pub mod Echo
pub mod Ramp
use fpga_pi_parallel_nids.Prelude.{
  ℕ, zero, suc, ◌+◌, ◌*◌, ◌-◌, bit_xor, Bool, true, false, not, ◌&&◌, List, [], ◌∷◌, ◌++◌, Option,
  none, some, Result, ok, raise, index_error, ◌>>=◌, ltb, ◌==◌, if◌then◌else◌, length, get_elem?,
  take,
}
use fpga_pi_parallel_nids.Prelude.Bits.{popcount}
use fpga_pi_parallel_nids.Prelude.Bytes.{Bytes, zeros}
use fpga_pi_parallel_nids.SpiLink.{frame_len, send_frame}

pub record RampResult : Type 0 where
  pub frames_compared : ℕ
  pub frame_errors : ℕ
  pub bit_errors : ℕ
  pub frame_bits : ℕ

-- `exp == got` on bytes.
unfoldable pub same_bytes : Bytes → Bytes → Bool
same_bytes [] [] = true
same_bytes [] (b ∷ bs) = false
same_bytes (a ∷ as_bytes) [] = false
same_bytes (a ∷ as_bytes) (b ∷ bs) = a == b && same_bytes as_bytes bs

-- `sum(bin(a ^ b).count("1") for a, b in zip(exp, got))`
unfoldable pub bit_errors_of : Bytes → Bytes → ℕ
bit_errors_of [] got = 0
bit_errors_of (a ∷ as_bytes) [] = 0
bit_errors_of (a ∷ as_bytes) (b ∷ bs) = popcount (bit_xor a b) + bit_errors_of as_bytes bs

-- `xs[k]`
abbrev pub at : List Bytes → ℕ → Result Bytes
at xs k = elim (get_elem? xs k) [ none ↦ raise index_error | some x ↦ ok x ]

-- One turn of the loop, for the expected frame and the one that was read.
unfoldable pub tally : RampResult → Bytes → Bytes → RampResult
tally r exp got =
    let wrong = not (same_bytes got exp) in
    record r {
      frames_compared = r.frames_compared + 1;
      frame_errors = (if wrong then r.frame_errors + 1 else r.frame_errors);
      bit_errors = (if wrong then r.bit_errors + bit_errors_of exp got else r.bit_errors);
    }

-- The `n` turns of the loop from `k`.
unfoldable pub compare_from : ℕ → ℕ → ℕ → List Bytes → List Bytes → RampResult → Result RampResult
compare_from zero k delay sent received r = ok r
compare_from (suc n) k delay sent received r = do
  exp ← at sent (k - delay)
  got ← at received k
  compare_from n (k + 1) delay sent received (tally r exp got)

-- `len(sent[0]) * 8 if sent else 0`
abbrev pub bits_of : List Bytes → ℕ
bits_of [] = 0
bits_of (f ∷ fs) = length f * 8

unfoldable pub ramp_errors : List Bytes → List Bytes → ℕ → Result RampResult
ramp_errors sent received delay =
    compare_from (length sent - delay) delay delay sent received
      (record { frames_compared = 0; frame_errors = 0; bit_errors = 0; frame_bits = bits_of sent })

module _ {W : Type 0} (xfer2 : W → Bytes → W × Bytes) where
  -- `[link.send_frame(f) for f in sent]`
  unfoldable pub send_all : W → List Bytes → Result (W × List Bytes)
  send_all w [] = ok (w, [])
  send_all w (f ∷ fs) = do
    (w1, rx) ← send_frame xfer2 w f
    (w2, rest) ← send_all w1 fs
    ok (w2, rx ∷ rest)

  -- `xs[:-1]`
  abbrev pub but_last : List Bytes → List Bytes
  but_last xs = take (length xs - 1) xs

  -- The comparison of `run_one`, for the frames that were drawn.
  unfoldable pub run_one : W → List Bytes → Result (W × RampResult)
  run_one w frames = do
    let sent = frames ++ (zeros frame_len ∷ [])
    (w1, received) ← send_all w sent
    r ← ramp_errors (but_last sent) (but_last received) 1
    ok (w1, r)
