-- ===== src/ClosedLoop.antt =====
-- closed_loop.py: the loop that polls the snapshot and pushes a rule for a new top talker. Its hash,
-- its poll and its read of the epoch are those of demo/orchestrator.py.
pub mod Talk
pub mod Rounds
use fpga_pi_parallel_nids.Prelude.{
  ℕ, zero, suc, Bool, not, ◌&&◌, List, [], ◌∷◌, ◌++◌, Result, ok, raise, ◌>>=◌, leb, ◌==◌,
  if◌then◌else◌, length, get_or, set,
}
use fpga_pi_parallel_nids.Prelude.Bytes.{Bytes, zeros, set_slice}
use fpga_pi_parallel_nids.Control.{encode_rule_write}
use fpga_pi_parallel_nids.Orchestrator.{lookup_idx, op_snapshot, read_rule_epoch}
use fpga_pi_parallel_nids.Rules.{Rule}
use fpga_pi_parallel_nids.SpiLink.{frame_len, send_frame}
use fpga_pi_parallel_nids.Telemetry.{SnapResponse, telemetry_magic, decode_snapshot}
use fpga_pi_parallel_nids.Traffic.{has}

-- `_frame(op, payload)`
unfoldable pub frame : ℕ → Bytes → Bytes
frame op payload = set (set_slice (zeros frame_len) 0 (length payload) payload) 16 op

-- The command line.
pub record Arguments : Type 0 where
  pub trigger : ℕ
  pub action : ℕ
  pub severity : ℕ

-- `seen.add(key)`; the set is the list of its members in the order of insertion.
unfoldable pub add : List ℕ → ℕ → List ℕ
add seen key = if has seen key then seen else seen ++ (key ∷ [])

-- `sleep` is the wait of --interval.
module _ {W : Type 0} (xfer2 : W → Bytes → W × Bytes) (sleep : W → W) where
  unfoldable pub poll_snapshot : W → Result (W × Bytes)
  poll_snapshot w = do
    (w1, _) ← send_frame xfer2 w (frame op_snapshot [])
    send_frame xfer2 w1 (zeros frame_len)

  -- The rule for a new top talker, which is then in the set.
  unfoldable pub push : W → ℕ → Arguments → List ℕ → ℕ → Result (W × List ℕ)
  push w epoch args seen key = do
    command ←
        encode_rule_write (lookup_idx key)
          (record { src_ip = key; action = args.action; severity = args.severity; epoch = epoch })
    (w1, _) ← send_frame xfer2 w command
    (w2, _) ← send_frame xfer2 w1 (zeros frame_len)
    ok (w2, add seen key)

  -- One turn of the `while` loop.
  unfoldable pub round : W → ℕ → Arguments → List ℕ → Result (W × List ℕ)
  round w epoch args seen = do
    (w1, rx) ← poll_snapshot w
    if get_or rx 0 0 == telemetry_magic
        then (do
          s ← decode_snapshot rx
          (w2, after) ←
              if leb args.trigger s.top1_count && not (has seen s.top1_key)
              then push w1 epoch args seen s.top1_key
              else ok (w1, seen)
          ok (sleep w2, after))
        else ok (sleep w1, seen)

  -- The first `n` turns.
  unfoldable pub rounds : ℕ → W → ℕ → Arguments → List ℕ → Result (W × List ℕ)
  rounds zero w epoch args seen = ok (w, seen)
  rounds (suc n) w epoch args seen = do
    (w1, after) ← round w epoch args seen
    rounds n w1 epoch args after

  unfoldable pub main : ℕ → W → Arguments → Result (W × List ℕ)
  main n w args = do (w1, epoch) ← read_rule_epoch xfer2 w; rounds n w1 epoch args []
