-- ===== src/Silicon/Collision/Evicted.antt =====
-- silicon_flow_check.py: the check against a board with the flow table of the model.
use fpga_pi_parallel_nids.Prelude.{
  ℕ, ◌<◌, ◌^◌, ◌≡◌, refl, ap, ◌∙◌, true, false, List, [], ◌∷◌, ok, arith, All, get_or,
}
use fpga_pi_parallel_nids.Prelude.Bytes.{Bytes, zeros}
use fpga_pi_parallel_nids.Prelude.Bits.{count_below}
use fpga_pi_parallel_nids.Classifier.{Header, parse}
use fpga_pi_parallel_nids.FlowTable
use fpga_pi_parallel_nids.FlowTable.{Packet, bucket, fp, syn_gate, port_bit, host_bit}
use fpga_pi_parallel_nids.FlowTable.Runs.{after, scans_port, scans_host}
use fpga_pi_parallel_nids.FlowTable.Reports.{HaveByteFlags, update_exact, update_evicted}
use fpga_pi_parallel_nids.Frames.{classify_frame}
use fpga_pi_parallel_nids.Frames.Headers.{header_frame, parse-header_frame}
use fpga_pi_parallel_nids.SpiLink.{send_frame}
use fpga_pi_parallel_nids.Thresholds.{Thresholds, port_thresh, host_thresh, read}
use fpga_pi_parallel_nids.Verdict.{Verdict, decode_verdict}
use fpga_pi_parallel_nids.Silicon.Collision.{
  src_a, src_b, dst, syns, collides, send_syns, flow_check,
}

abbrev pub flow_packet : Header → ℕ → Packet
flow_packet h n = record {
  src_ip = h.src_ip;
  dst_ip = h.dst_ip;
  dst_port = h.dst_port;
  proto = h.proto;
  tcp_flags = h.flags;
  pkt_size = h.size;
  frame_count = n;
}

-- What PROTOCOL.md says of a board with the flow table: it answers a frame one frame late; a frame
-- with the opcode 0 is a packet, which gets the number `count` and changes no threshold; its verdict
-- has the flag that the table reports for it. `seen` holds the packets, the latest first.
pub record HasFlowTable {W : Type 0} (xfer2 : W → Bytes → W × Bytes) (th : W → Thresholds)
    (seen : W → List Packet) (count : W → ℕ) (pending : W → Bytes) : Type 0 where
  pub answer : (w : W) (f : Bytes) → (xfer2 w f).1 ≡ pending w
  pub packet :
      (w : W) (f : Bytes) (h : Header)
      → get_or f 16 0 ≡ 0
      → parse f ≡ ok h
      → seen (xfer2 w f).0 ≡ flow_packet h (count w) ∷ seen w
  pub keeps : (w : W) (f : Bytes) → get_or f 16 0 ≡ 0 → th (xfer2 w f).0 ≡ th w
  pub verdict :
      (w : W) (f : Bytes) (h : Header)
      → get_or f 16 0 ≡ 0
      → parse f ≡ ok h
      → (v : Verdict) × (decode_verdict (pending (xfer2 w f).0) ≡ ok v)
        × (v.valid ≡ true)
        × (v.port_scan_hit
            ≡ (FlowTable.update
                (after (FlowTable.init (th w)) (seen w))
                (flow_packet h (count w))).1.0)

-- The header of a SYN of the script.
abbrev syn_header : ℕ → ℕ → Header
syn_header src port = record {
  src_ip = src;
  dst_ip = dst;
  src_port = 0;
  dst_port = port;
  proto = 6;
  flags = 2;
  size = 60;
}

collision : collides src_a src_b ≡ true
unfolding collides bucket fp
collision = refl

-- The last SYN of the script, alone in its run, has one port bit and one host bit.
last_bits :
    (n : ℕ)
    → (count_below 16 (scans_port (flow_packet (syn_header src_a 42) n ∷ [])) ≡ 1)
      × (count_below 16 (scans_host (flow_packet (syn_header src_a 42) n ∷ [])) ≡ 1)
unfolding syn_gate port_bit host_bit count_below
last_bits n = (refl, refl)

-- One SYN on a fresh table is below the thresholds.
single_lem :
    (th : Thresholds) (n : ℕ)
    → 1 < read th port_thresh
    → 1 < read th host_thresh
    → (FlowTable.update (FlowTable.init th) (flow_packet (syn_header src_a 42) n)).1.0 ≡ false
unfolding after
single_lem th n ports hosts =
    let e = update_exact th (flow_packet (syn_header src_a 42) n) [] (omega arith, tt) in
    let (one_port, one_host) = last_bits n in ap (λ r. r.0) e ∙ ground (arith, one_port, one_host)

-- The script's collision, for the packets that make it.
evicted_lem :
    (th : Thresholds) (n m : ℕ) (ps : List Packet)
    → HaveByteFlags ps
    → 1 < read th port_thresh
    → 1 < read th host_thresh
    → (FlowTable.update
        (after (FlowTable.init th) (flow_packet (syn_header src_b 21) m ∷ ps))
        (flow_packet (syn_header src_a 42) n)).1.0
      ≡ false
unfolding bucket fp
evicted_lem th n m ps bytes ports hosts =
    ap (λ r. r.0)
      (update_evicted th (flow_packet (syn_header src_a 42) n) (flow_packet (syn_header src_b 21) m)
        ps (omega arith, (omega arith, bytes)) refl (λ e. omega (arith, e)))
    ∙ single_lem th n ports hosts

abbrev IsSmall : ℕ × ℕ → Type 0
IsSmall (src, port) = (src < 2 ^ 32) × (port < 2 ^ 16)

-- The frame of a SYN is its header.
syn_frame :
    (src port : ℕ)
    → src < 2 ^ 32
    → port < 2 ^ 16
    → let f = header_frame (syn_header src port) in
      (classify_frame src dst port 6 0x02 60 ≡ ok f) × (parse f ≡ ok (syn_header src port))
unfolding classify_frame
syn_frame src port small fits = (
  ground arith,
  parse-header_frame (syn_header src port)
      (small, omega arith, omega arith, fits, omega arith, omega arith, omega arith),
)

src_a-IsSmall : (port : ℕ) → port < 2 ^ 16 → IsSmall (src_a, port)
src_a-IsSmall port fits = (omega arith, fits)

src_b-IsSmall : IsSmall (src_b, 21)
src_b-IsSmall = (omega arith, omega arith)

-- The SYNs before the collision.
abbrev first : List (ℕ × ℕ)
first = (src_a, 1) ∷ (src_a, 3) ∷ (src_a, 7) ∷ (src_a, 13) ∷ []

first-IsSmall : All IsSmall first
first-IsSmall =
    let a = src_a-IsSmall in
    (a 1 (omega arith), (a 3 (omega arith), (a 7 (omega arith), (a 13 (omega arith), tt))))

syns-IsSmall : All IsSmall syns
syns-IsSmall =
    let (a, (b, (c, (d, _)))) = first-IsSmall in
    (a, (b, (c, (d, (src_b-IsSmall, (src_a-IsSmall 42 (omega arith), tt))))))

module _ {W : Type 0} (xfer2 : W → Bytes → W × Bytes) (th : W → Thresholds) (seen : W → List Packet)
    (count : W → ℕ) (pending : W → Bytes) (board : HasFlowTable xfer2 th seen count pending) where
  -- The board behind a SYN, and the script's loop up to it.
  abbrev sent : W → ℕ × ℕ → W
  sent w (src, port) = (xfer2 w (header_frame (syn_header src port))).0

  abbrev sent_all : W → List (ℕ × ℕ) → W
  sent_all w [] = w
  sent_all w (s ∷ rest) = sent_all (sent w s) rest

  send_syns_total :
      (pairs : List (ℕ × ℕ)) (w : W)
      → All IsSmall pairs
      → send_syns xfer2 w pairs ≡ ok (sent_all w pairs)
  unfolding send_syns send_frame
  send_syns_total [] w small = refl
  send_syns_total ((src, port) ∷ rest) w ((s, p), small) =
      let (made, read_back) = syn_frame src port s p in
      rw made (send_syns_total rest (sent w (src, port)) small)

  seen-sent :
      (w : W) (src port : ℕ)
      → IsSmall (src, port)
      → seen (sent w (src, port)) ≡ flow_packet (syn_header src port) (count w) ∷ seen w
  seen-sent w src port (s, p) =
      let (made, read_back) = syn_frame src port s p in board.packet w _ _ refl read_back

  sent_all-HaveByteFlags :
      (pairs : List (ℕ × ℕ)) (w : W)
      → All IsSmall pairs
      → HaveByteFlags (seen w)
      → HaveByteFlags (seen (sent_all w pairs))
  sent_all-HaveByteFlags [] w small bytes = bytes
  sent_all-HaveByteFlags ((src, port) ∷ rest) w (here, small) bytes =
      sent_all-HaveByteFlags rest (sent w (src, port)) small
        (rw (seen-sent w src port here) (omega arith, bytes))

  thresholds-sent_all : (pairs : List (ℕ × ℕ)) (w : W) → th (sent_all w pairs) ≡ th w
  thresholds-sent_all [] w = refl
  thresholds-sent_all ((src, port) ∷ rest) w =
      thresholds-sent_all rest (sent w (src, port)) ∙ board.keeps w _ refl

  -- The check passes on a board with the flow table: whatever packets it saw before, at whatever
  -- count and in whatever window, with thresholds for ports and hosts above 1, the second source
  -- evicts the cell of the first, so its last SYN is not reported as a port scan, and the script
  -- returns exit code 0.
  pub flow_check_total :
      (settle : W → W) (w : W)
      → HaveByteFlags (seen (settle w))
      → 1 < read (th (settle w)) port_thresh
      → 1 < read (th (settle w)) host_thresh
      → (w1 : W) × (flow_check xfer2 settle w ≡ ok (w1, 0))
  unfolding flow_check send_frame
  flow_check_total settle w bytes ports hosts =
      let w4 = sent_all (settle w) first in
      let w5 = sent w4 (src_b, 21) in
      let w6 = sent w5 (src_a, 42) in
      let made : send_syns xfer2 (settle w) syns ≡ ok w6 =
        send_syns_total syns (settle w) syns-IsSmall in
      let had : HaveByteFlags (seen w4) =
        sent_all-HaveByteFlags first (settle w) first-IsSmall bytes in
      let (_, read_back) = let (s, p) = src_a-IsSmall 42 (omega arith) in syn_frame src_a 42 s p in
      let (v, read_v, valid, flag) = board.verdict w5 _ _ refl read_back in
      let same : th w5 ≡ th (settle w) =
        board.keeps w4 _ refl ∙ thresholds-sent_all first (settle w) in
      let clear : v.port_scan_hit ≡ false =
        flag
        ∙ (ap
              (λ ps.
                (FlowTable.update (after (FlowTable.init (th w5)) ps)
                  (flow_packet (syn_header src_a 42) (count w5))).1.0)
              (seen-sent w4 src_b 21 src_b-IsSmall)
            ∙ evicted_lem (th w5) (count w5) (count w4) (seen w4) had (rw same ports)
                (rw same hosts)) in
      (
        (xfer2 w6 (zeros 32)).0,
        rw (collision, made, board.answer w6 (zeros 32), read_v) (rw (valid, clear) refl),
      )
