-- ===== src/SpiLink.antt =====
-- spi_link.py: one exchange of frames. The transfer itself (`xfer2` of spidev, with the device
-- behind it) is a parameter, over the state `W` of everything outside the program.
use fpga_pi_parallel_nids.Prelude.{ℕ, Result, ok, raise, value_error, ◌==◌, if◌then◌else◌, length}
use fpga_pi_parallel_nids.Prelude.Bytes.{Bytes}

abbrev pub frame_len : ℕ
frame_len = 32

module _ {W : Type 0} (xfer2 : W → Bytes → W × Bytes) where
  unfoldable pub send_frame : W → Bytes → Result (W × Bytes)
  send_frame w frame = if length frame == frame_len then ok (xfer2 w frame) else raise value_error
