-- ===== src/Wiring.antt =====
-- spi_fpga_bringup.py and spi_loopback_test.py: the checks of the wires, against an echo of known
-- frames.
pub mod Echoed
use fpga_pi_parallel_nids.Prelude.{
  ℕ, zero, suc, ◌+◌, ◌*◌, Bool, true, false, not, ◌&&◌, ◌||◌, List, [], ◌∷◌, ◌++◌, Result, ok,
  ◌>>=◌, ◌==◌, if◌then◌else◌, length, replicate,
}
use fpga_pi_parallel_nids.Prelude.Bytes.{Bytes, zeros, truthy}
use fpga_pi_parallel_nids.Ber.{at, same_bytes, send_all}
use fpga_pi_parallel_nids.SpiLink.{frame_len, send_frame}

-- `bytes(range(start, start + n))`
unfoldable pub bytes_from : ℕ → ℕ → Bytes
bytes_from zero start = []
bytes_from (suc n) start = start ∷ bytes_from n (start + 1)

-- bytes.fromhex("c0000201c6336401d43101bb0618020000000000" + "00" * 12)
abbrev pub header_like : Bytes
header_like =
    (0xC0 ∷ 0x00 ∷ 0x02 ∷ 0x01 ∷ 0xC6 ∷ 0x33 ∷ 0x64 ∷ 0x01 ∷ 0xD4 ∷ 0x31 ∷ 0x01 ∷ 0xBB ∷ 0x06 ∷ 0x18
      ∷ 0x02 ∷ [])
    ++ (replicate 5 0x00 ++ replicate 12 0x00)

abbrev pub frames : List Bytes
frames =
    bytes_from frame_len 0
    ∷ replicate frame_len 0xAA
    ∷ bytes_from frame_len frame_len
    ∷ header_like
    ∷ []

-- The texts of the dictionary `PATTERNS` are left out.
abbrev pub patterns : List Bytes
patterns =
    bytes_from frame_len 0 ∷ replicate frame_len 0xAA ∷ replicate frame_len 0x55 ∷ header_like ∷ []

-- `any(bs)`, and `any(any(r) for r in received)`
unfoldable pub any_set : Bytes → Bool
any_set [] = false
any_set (b ∷ bs) = truthy b || any_set bs

unfoldable pub any_heard : List Bytes → Bool
any_heard [] = false
any_heard (r ∷ received) = any_set r || any_heard received

-- What the last lines tell.
pub data Advice : Type 0 where
  link_verified loopback_verified heard_nothing misaligned : Advice

pub record Report : Type 0 where
  pub passed : ℕ
  pub advice : Advice
  pub exit_code : ℕ

-- The turns of the loop over `FRAMES` from the `i`-th.
unfoldable pub passed_from : ℕ → ℕ → List Bytes → List Bytes → Result ℕ
passed_from i delay received [] = ok 0
passed_from i delay received (expected ∷ rest) = do
  rx ← at received (i + delay)
  passed ← passed_from (i + 1) delay received rest
  ok ((if same_bytes rx expected then 1 else 0) + passed)

unfoldable pub bringup_report : ℕ → ℕ → List Bytes → Report
bringup_report delay passed received =
    if passed == length frames
    then record {
      passed = passed;
      advice = (if truthy delay then link_verified else loopback_verified);
      exit_code = 0;
    }
    else record {
      passed = passed;
      advice = (if not (any_heard received) then heard_nothing else misaligned);
      exit_code = 1;
    }

module _ {W : Type 0} (xfer2 : W → Bytes → W × Bytes) where
  -- spi_fpga_bringup.py
  unfoldable pub bringup : ℕ → W → Result (W × Report)
  bringup delay w = do
    (w1, received) ← send_all xfer2 w (frames ++ replicate delay (zeros frame_len))
    passed ← passed_from 0 delay received frames
    ok (w1, bringup_report delay passed received)

  -- spi_loopback_test.py: the loop over the patterns, with the matches and whether a byte was set.
  unfoldable pub loop_back : W → List Bytes → Result (W × (ℕ × Bool))
  loop_back w [] = ok (w, (0, false))
  loop_back w (tx ∷ rest) = do
    (w1, rx) ← send_frame xfer2 w tx
    (w2, (passed, saw_nonzero)) ← loop_back w1 rest
    ok (w2, ((if same_bytes rx tx then 1 else 0) + passed, any_set rx || saw_nonzero))

  unfoldable pub loopback : W → Result (W × Report)
  loopback w = do
    (w1, (passed, saw_nonzero)) ← loop_back w patterns
    ok (
      w1,
      (if passed == length patterns
          then record { passed = passed; advice = loopback_verified; exit_code = 0 }
          else record {
            passed = passed;
            advice = (if not saw_nonzero then heard_nothing else misaligned);
            exit_code = 1;
          }),
    )
