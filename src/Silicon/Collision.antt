-- ===== src/Silicon/Collision.antt =====
-- silicon_flow_check.py: two sources that share a bucket of the flow table.
pub mod Evicted
use fpga_pi_parallel_nids.Prelude.{
  ℕ, Bool, not, ◌&&◌, List, [], ◌∷◌, Result, ok, ◌>>=◌, ◌==◌, if◌then◌else◌,
}
use fpga_pi_parallel_nids.Prelude.Bytes.{Bytes, zeros}
use fpga_pi_parallel_nids.FlowTable.{bucket, fp}
use fpga_pi_parallel_nids.Frames.{classify_frame}
use fpga_pi_parallel_nids.SpiLink.{frame_len, send_frame}
use fpga_pi_parallel_nids.Verdict.{decode_verdict}

abbrev pub src_a : ℕ
src_a = 0xCB007105

abbrev pub src_b : ℕ
src_b = 0x0A000CF5

abbrev pub dst : ℕ
dst = 0xC0000020

-- The source and the port of each SYN, in order.
abbrev pub syns : List (ℕ × ℕ)
syns = (src_a, 1) ∷ (src_a, 3) ∷ (src_a, 7) ∷ (src_a, 13) ∷ (src_b, 21) ∷ (src_a, 42) ∷ []

-- The precondition of the script.
unfoldable pub collides : ℕ → ℕ → Bool
collides a b = bucket a == bucket b && not (fp a == fp b)

module _ {W : Type 0} (xfer2 : W → Bytes → W × Bytes) where
  unfoldable pub send_syns : W → List (ℕ × ℕ) → Result W
  send_syns w [] = ok w
  send_syns w ((src, port) ∷ rest) = do
    frame ← classify_frame src dst port 6 0x02 60
    (w1, _) ← send_frame xfer2 w frame
    send_syns w1 rest

  -- `main` with its exit code; `settle` is the wait before the frames.
  unfoldable pub flow_check : (W → W) → W → Result (W × ℕ)
  flow_check settle w = if not (collides src_a src_b) then ok (w, 1) else (do
    w1 ← send_syns (settle w) syns
    (w2, rx_last) ← send_frame xfer2 w1 (zeros frame_len)
    v ← decode_verdict rx_last
    ok (w2, (if v.valid && not v.port_scan_hit then 0 else 1)))
