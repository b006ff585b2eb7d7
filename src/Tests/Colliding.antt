-- ===== src/Tests/Colliding.antt =====
-- An instance for silicon_flow_check.py: a board with the flow table, which saw a packet before.
use fpga_pi_parallel_nids.Prelude.{
  ℕ, ◌+◌, ◌≡◌, refl, Bool, true, false, List, [], ◌∷◌, ok, raise, Result, arith,
}
use fpga_pi_parallel_nids.Prelude.Bytes.{Bytes, zeros}
use fpga_pi_parallel_nids.Classifier.{Header, parse}
use fpga_pi_parallel_nids.FlowTable
use fpga_pi_parallel_nids.FlowTable.{Packet}
use fpga_pi_parallel_nids.FlowTable.Runs.{after}
use fpga_pi_parallel_nids.Thresholds
use fpga_pi_parallel_nids.Verdict.{Verdict, decode_verdict}
use fpga_pi_parallel_nids.Silicon.Collision.{flow_check}
use fpga_pi_parallel_nids.Silicon.Collision.Evicted.{flow_packet, HasFlowTable, flow_check_total}

record Board : Type 0 where
  seen : List Packet
  count : ℕ
  flag : Bool

abbrev spoken : Bool → Bytes
spoken true = 0xA5 ∷ 2 ∷ 2 ∷ 1 ∷ zeros 28
spoken false = 0xA5 ∷ zeros 31

abbrev reported : List Packet → Packet → Bool
reported seen p = (FlowTable.update (after (FlowTable.init Thresholds.init) seen) p).1.0

abbrev take_in : Board → Result Header → Board
take_in w (raise e) = w
take_in w (ok h) =
    let p = flow_packet h w.count in
    record { seen = p ∷ w.seen; count = w.count + 1; flag = reported w.seen p }

abbrev board : Board → Bytes → Board × Bytes
board w f = (take_in w (parse f), spoken w.flag)

spoken_flag :
    (b : Bool)
    → (v : Verdict) × (decode_verdict (spoken b) ≡ ok v) × (v.valid ≡ true) × (v.port_scan_hit ≡ b)
unfolding decode_verdict
spoken_flag true = (_, refl, refl, refl)
spoken_flag false = (_, refl, refl, refl)

board-HasFlowTable :
    HasFlowTable board (λ w. Thresholds.init) (λ w. w.seen) (λ w. w.count) (λ w. spoken w.flag)
board-HasFlowTable = record {
  answer = λ w f. refl;
  packet = λ w f h op e. rw e refl;
  keeps = λ w f op. refl;
  verdict = λ w f h op e. rw e (spoken_flag (reported w.seen (flow_packet h w.count)));
}

abbrev earlier : Packet
earlier = record {
  src_ip = 0xCB007105;
  dst_ip = 5;
  dst_port = 99;
  proto = 6;
  tcp_flags = 2;
  pkt_size = 60;
  frame_count = 40;
}

abbrev started : Board
started = record { seen = earlier ∷ []; count = 41; flag = false }

flow_check_total_example : (w1 : Board) × (flow_check board (λ w. w) started ≡ ok (w1, 0))
unfolding Thresholds.init Thresholds.read
flow_check_total_example =
    flow_check_total board (λ w. Thresholds.init) (λ w. w.seen) (λ w. w.count) (λ w. spoken w.flag)
      board-HasFlowTable (λ w. w) started (omega arith, tt) (omega arith) (omega arith)
