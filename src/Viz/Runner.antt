-- ===== src/Viz/Runner.antt =====
-- viz.py: the feed of packets with their verdicts, over a replayed workload and over the link.
-- scapy's `sniff` is the list of the packets that it hands over; the banners are left out.
use fpga_pi_parallel_nids.Prelude.{
  ℕ, ◌+◌, ◌%◌, Bool, List, [], ◌∷◌, ◌++◌, Option, none, some, Result, ok, ◌>>=◌, ◌==◌,
  if◌then◌else◌,
}
use fpga_pi_parallel_nids.Prelude.Bytes.{Bytes}
use fpga_pi_parallel_nids.Benchmark.{Draws, make_workload}
use fpga_pi_parallel_nids.Bloom.{BloomFilter, from_ips}
use fpga_pi_parallel_nids.Classifier.{classify_header}
use fpga_pi_parallel_nids.Clock.{Clock}
use fpga_pi_parallel_nids.Frames.{IpPacket, extract_header}
use fpga_pi_parallel_nids.SpiLink.{send_frame}
use fpga_pi_parallel_nids.Verdict.{Verdict, decode_verdict}
use fpga_pi_parallel_nids.Viz.{Stats, Row, init, update, format_row, ips_from_header}

abbrev pub summary_every : ℕ
summary_every = 20

-- A packet with its number, a summary with the elapsed time, and the final one.
pub data Line (Time : Type 0) : Type 0 where
  packet : ℕ → Row → Line Time
  summary : Stats → Time → Line Time
  final : Stats → Time → Line Time

module _ {W Time : Type 0} (clock : Clock W Time) where
  -- The new tallies and the lines of a packet.
  unfoldable pub emit :
      W → Bytes → Bytes → Verdict → Stats → ℕ → Bool → Time → W × (Stats × List (Line Time))
  emit w src dst verdict stats count color t0 =
      let st = update stats verdict in
      let row = packet count (format_row src dst verdict color) in
      if count % summary_every == 0
      then (let (w1, now) = clock.monotonic w in
          (w1, (st, row ∷ summary st (clock.sub now t0) ∷ [])))
      else (w, (st, row ∷ []))

  -- The line behind the loop.
  unfoldable pub finish : W → Stats → Time → List (Line Time) → W × (Stats × List (Line Time))
  finish w stats t0 lines =
      let (w1, now) = clock.monotonic w in
      (w1, (stats, lines ++ (final stats (clock.sub now t0) ∷ [])))

  -- The turns of the loop of `run_replay`, from the `i`-th.
  unfoldable pub replay_from :
      BloomFilter
      → Bool
      → Time
      → Time
      → W
      → Stats
      → ℕ
      → List Bytes
      → Result (W × (Stats × List (Line Time)))
  replay_from bloom color delay t0 w stats i [] = ok (w, (stats, []))
  replay_from bloom color delay t0 w stats i (header ∷ headers) = do
    frame ← classify_header header bloom i
    verdict ← decode_verdict frame
    let (src, dst) = ips_from_header header
    let (w1, (st, lines)) = emit w src dst verdict stats i color t0
    (w2, (st2, rest)) ← replay_from bloom color delay t0 (clock.sleep delay w1) st (i + 1) headers
    ok (w2, (st2, lines ++ rest))

  module _ {R Text : Type 0} (draws : Draws R) (inet_aton : Text → Result Bytes)
      (test_c2_set : List Text) where
    -- `n_hits` is `round(count * hit_fraction)`, and `fuel` that of the workload.
    unfoldable pub run_replay :
        ℕ → ℕ → ℕ → ℕ → Bool → Time → W → Result (W × (Stats × List (Line Time)))
    run_replay fuel count n_hits seed color delay w = do
      bloom ← from_ips inet_aton test_c2_set
      headers ← make_workload draws inet_aton test_c2_set fuel count n_hits seed
      let (w1, t0) = clock.monotonic w
      (w2, (stats, lines)) ← replay_from bloom color delay t0 w1 init 1 headers
      ok (finish w2 stats t0 lines)

  module _ (xfer2 : W → Bytes → W × Bytes) where
    -- `handle`, with the count and the tallies as its state.
    unfoldable pub handle :
        Bool
        → Time
        → W
        → Stats
        → ℕ
        → Option IpPacket
        → Result (W × ((Stats × List (Line Time)) × ℕ))
    handle color t0 w stats count pkt = do
      extracted ← extract_header pkt
      elim extracted [
        | none ↦ ok (w, ((stats, []), count))
        | some header ↦ do
          (w1, rx) ← send_frame xfer2 w header
          verdict ← decode_verdict rx
          let (src, dst) = ips_from_header header
          let (w2, shown) = emit w1 src dst verdict stats (count + 1) color t0
          ok (w2, (shown, count + 1))
      ]

    -- The packets that `sniff` hands over.
    unfoldable pub live_from :
        Bool
        → Time
        → W
        → Stats
        → ℕ
        → List (Option IpPacket)
        → Result (W × (Stats × List (Line Time)))
    live_from color t0 w stats count [] = ok (w, (stats, []))
    live_from color t0 w stats count (pkt ∷ pkts) = do
      (w1, ((st, lines), count1)) ← handle color t0 w stats count pkt
      (w2, (st2, rest)) ← live_from color t0 w1 st count1 pkts
      ok (w2, (st2, lines ++ rest))

    unfoldable pub run_live :
        Bool → W → List (Option IpPacket) → Result (W × (Stats × List (Line Time)))
    run_live color w pkts = do
      let (w1, t0) = clock.monotonic w
      (w2, (stats, lines)) ← live_from color t0 w1 init 0 pkts
      ok (finish w2 stats t0 lines)
