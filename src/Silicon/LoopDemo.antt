-- ===== src/Silicon/LoopDemo.antt =====
-- silicon_loop_demo.py: from a flood to the verdict of the pushed rule.
pub mod Board
pub mod Blocked
use fpga_pi_parallel_nids.Prelude.{
  ℕ, zero, suc, ◌*◌, ◌/◌, ◌^◌, bit_and, Bool, not, ◌&&◌, ◌||◌, Option, none, some, Result, ok,
  raise, ◌>>=◌, leb, ◌==◌, if◌then◌else◌, get_or, set,
}
use fpga_pi_parallel_nids.Prelude.Bytes.{Bytes, zeros, to_bytes, set_slice}
use fpga_pi_parallel_nids.Clock.{Clock}
use fpga_pi_parallel_nids.Control.{encode_rule_write}
use fpga_pi_parallel_nids.SpiLink.{frame_len, send_frame}
use fpga_pi_parallel_nids.Telemetry.{SnapResponse, decode_snapshot}
use fpga_pi_parallel_nids.Verdict.{Verdict, decode_verdict}

abbrev pub a1 : ℕ
a1 = 0x9E3779B1

abbrev pub mask32 : ℕ
mask32 = 0xFFFFFFFF

abbrev pub op_snapshot : ℕ
op_snapshot = 0x02

abbrev pub flood_src : ℕ
flood_src = 0xCB007105

abbrev pub flood_dst : ℕ
flood_dst = 0x0A000020

abbrev pub flood_n : ℕ
flood_n = 10

unfoldable pub lookup_idx : ℕ → ℕ
lookup_idx ip = bit_and (bit_and (ip * a1) mask32 / 2 ^ 23) 0x1FF

unfoldable pub udp_frame : ℕ → Result Bytes
udp_frame src_ip = do
  src ← to_bytes src_ip 4
  dst ← to_bytes flood_dst 4
  port ← to_bytes 80 2
  ok (set (set_slice (set_slice (set_slice (zeros frame_len) 0 4 src) 4 8 dst) 10 12 port) 12 17)

unfoldable pub snap_frame : Bytes
snap_frame = set (zeros frame_len) 16 op_snapshot

-- What the script asks of the verdict behind the rule.
unfoldable pub is_blocked : Verdict → Bool
is_blocked v = v.valid && (v.rule_match_hit && v.escalate)

-- The reading of the clock is time.time here; `deadline_s` and `pause_s` are 2.5 and 0.1 seconds.
module _ {W Time : Type 0} (xfer2 : W → Bytes → W × Bytes) (clock : Clock W Time)
    (deadline_s pause_s : Time) where
  unfoldable pub flood : W → ℕ → Result W
  flood w zero = ok w
  flood w (suc n) = do frame ← udp_frame flood_src; (w1, _) ← send_frame xfer2 w frame; flood w1 n

  -- One poll: the snapshot if it is the flood's.
  unfoldable pub poll : W → Result (W × Option SnapResponse)
  poll w = do
    (w1, _) ← send_frame xfer2 w snap_frame
    (w2, rx) ← send_frame xfer2 w1 (zeros frame_len)
    if get_or rx 0 0 == 0x5A
        then (do
          cand ← decode_snapshot rx
          ok (
            w2,
            (if leb flood_n cand.total && cand.top1_key == flood_src then some cand else none),
          ))
        else ok (w2, none)

  -- What follows a poll: the loop ends with a snapshot, and goes on without one.
  abbrev pub after_poll :
      Result (W × Option SnapResponse)
      → (W → Option (Result (W × Option SnapResponse)))
      → Option (Result (W × Option SnapResponse))
  after_poll (raise e) again = some (raise e)
  after_poll (ok (w, some s)) again = some (ok (w, some s))
  after_poll (ok (w, none)) again = again w

  -- The loop up to the deadline; the outer `none` means that the fuel ran out.
  unfoldable pub poll_until : ℕ → W → Time → Option (Result (W × Option SnapResponse))
  poll_until zero w deadline = none
  poll_until (suc fuel) w deadline =
      let (w1, now) = clock.monotonic w in
      let polled = after_poll (poll w1) (λ w2. poll_until fuel (clock.sleep pause_s w2) deadline) in
      if clock.before now deadline then polled else some (ok (w1, none))

  -- Steps 3 to 5: the rule, its acknowledgement, and the verdict for the next frame.
  unfoldable pub block_and_probe : W → SnapResponse → Result (W × ℕ)
  block_and_probe w s = do
    command ←
        encode_rule_write (lookup_idx s.top1_key)
          (record { src_ip = s.top1_key; action = 0b101; severity = 3; epoch = 0 })
    (w1, _) ← send_frame xfer2 w command
    (w2, ack) ← send_frame xfer2 w1 (zeros frame_len)
    if not (get_or ack 0 0 == 0x5A) || not (get_or ack 1 0 == 0x12) then ok (w2, 1) else (do
      frame ← udp_frame flood_src
      (w3, _) ← send_frame xfer2 w2 frame
      (w4, rx_v) ← send_frame xfer2 w3 (zeros frame_len)
      v ← decode_verdict rx_v
      ok (w4, (if is_blocked v then 0 else 1)))

  abbrev pub flood_all : W → Result W
  flood_all w = do w1 ← flood w flood_n; (w2, _) ← send_frame xfer2 w1 (zeros frame_len); ok w2

  -- The end of `main`, from the outcome of the polls.
  abbrev pub judged : Option (Result (W × Option SnapResponse)) → Option (Result (W × ℕ))
  judged none = none
  judged (some (raise e)) = some (raise e)
  judged (some (ok (w, none))) = some (ok (w, 1))
  judged (some (ok (w, some s))) = some (block_and_probe w s)

  abbrev pub watched : ℕ → Result W → Option (Result (W × ℕ))
  watched fuel (raise e) = some (raise e)
  watched fuel (ok w) =
      let (w1, now) = clock.monotonic w in judged (poll_until fuel w1 (clock.add now deadline_s))

  -- `main` with its exit code; `settle` is the wait of 1.1 seconds.
  unfoldable pub loop_demo : (W → W) → ℕ → W → Option (Result (W × ℕ))
  loop_demo settle fuel w = watched fuel (flood_all (settle w))
