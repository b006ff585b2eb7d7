-- ===== src/Orchestrator/Poll.antt =====
-- demo/orchestrator.py: a poll of the snapshot, whatever the device answers.
use fpga_pi_parallel_nids.Prelude.{
  ◌≡◌, Option, none, some, ok, Bool-cases, inl, inr, arith, ◌==◌, length, get_or, All, length-set,
}
use fpga_pi_parallel_nids.Prelude.Bytes.{Bytes, IsByte, zeros}
use fpga_pi_parallel_nids.Telemetry.{SnapResponse, telemetry_magic}
use fpga_pi_parallel_nids.Telemetry.Received.{IsReceived, decode_snapshot-IsReceived}
use fpga_pi_parallel_nids.Orchestrator.{DemoState, op_snapshot, snap_frame, poll_snapshot}

-- What spidev documents of `xfer2`: it answers as many bytes as it was given.
pub record AnswersBytes {W : Type 0} (xfer2 : W → Bytes → W × Bytes) : Type 0 where
  pub answer_length : (w : W) (f : Bytes) → length (xfer2 w f).1 ≡ length f
  pub answer_bytes : (w : W) (f : Bytes) → All IsByte (xfer2 w f).1

abbrev pub HasReceived : Option SnapResponse → Type 0
HasReceived none = Unit
HasReceived (some s) = IsReceived s

pub some-IsReceived :
    (o : Option SnapResponse) (s : SnapResponse) → HasReceived o → o ≡ some s → IsReceived s
some-IsReceived none s received same = absurd cc
some-IsReceived (some t) s received same = ground (arith, received)

length-snap_frame : length snap_frame ≡ 32
unfolding snap_frame
length-snap_frame = length-set (zeros 32) 16 op_snapshot

module _ {W Name Time : Type 0} (xfer2 : W → Bytes → W × Bytes) (link : AnswersBytes xfer2) where
  -- A poll returns whatever the device answers. It changes nothing but the snapshot, and a new
  -- snapshot fits the fields of its frame; a frame with another magic leaves the old one.
  pub poll_snapshot_total :
      (w : W) (state : DemoState Name Time)
      → HasReceived state.snapshot
      → (w1 : W) × (o : Option SnapResponse) × (poll_snapshot xfer2 w state
          ≡ ok (w1, record state { snapshot = o }))
        × HasReceived o
  unfolding poll_snapshot
  poll_snapshot_total w state received =
      let (w1, _) = xfer2 w snap_frame in
      let (w2, rx) = xfer2 w1 (zeros 32) in
      let size : length rx ≡ 32 = link.answer_length w1 (zeros 32) in
      elim (Bool-cases (get_or rx 0 0 == telemetry_magic)) [
        | inl m ↦
            let (s, e, fits) =
              decode_snapshot-IsReceived rx size (link.answer_bytes w1 (zeros 32)) (ground arith) in
            (w2, some s, ground (arith, length-snap_frame, e, m), fits)
        | inr m ↦ (w2, state.snapshot, ground (arith, length-snap_frame, m), received)
      ]
