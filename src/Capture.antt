-- ===== src/Capture.antt =====
-- packet_capture.py: the printed rows, the handler of captured packets and `main`. scapy's packet is
-- the record of Frames, and its `sniff` is the list of the packets that it hands over. A call
-- gives the outside world beside its result, so that an exception keeps what was sent before it.
pub mod Headers
pub mod Rows
use fpga_pi_parallel_nids.Prelude.{
  ℕ, ◌+◌, List, [], ◌∷◌, Option, none, some, Result, ok, raise, struct_error, ◌>>=◌, ◌==◌,
  if◌then◌else◌, length, get_or,
}
use fpga_pi_parallel_nids.Prelude.Bytes.{Bytes, from_bytes, slice}
use fpga_pi_parallel_nids.Frames.{Transport, tcp, udp, other, IpPacket, extract_header}
use fpga_pi_parallel_nids.SpiLink.{send_frame}
use fpga_pi_parallel_nids.Verdict.{Description, describe, decode_verdict}

-- The names in `_PROTO_NAMES`; `numbered n` is the text of the number `n`.
pub data ProtoName : Type 0 where
  icmp_name tcp_name udp_name : ProtoName
  numbered : ℕ → ProtoName

unfoldable pub proto_name : ℕ → ProtoName
proto_name proto =
    if proto == 1
    then icmp_name
    else if proto == 6
    then tcp_name
    else if proto == 17
    then udp_name
    else numbered proto

-- `pkt[TCP].flags`, which is shown as "-" when there is no TCP.
unfoldable pub shown_flags : Transport → Option ℕ
shown_flags (tcp sport dport flags) = some flags
shown_flags (udp sport dport) = none
shown_flags other = none

-- A row by its parts; the addresses are shown as texts.
pub record Shown : Type 0 where
  pub src : Bytes
  pub src_port : ℕ
  pub dst : Bytes
  pub dst_port : ℕ
  pub proto : ProtoName
  pub size : ℕ
  pub flags : Option ℕ
  pub header : Bytes

-- The fields of `_TAIL.unpack(header[8:20])`.
unfoldable pub format_row : IpPacket → Bytes → Result Shown
format_row ip header =
    let tail = slice header 8 20 in
    if length tail == 12
    then ok (record {
      src = ip.src;
      src_port = from_bytes (slice tail 0 2);
      dst = ip.dst;
      dst_port = from_bytes (slice tail 2 4);
      proto = proto_name (get_or tail 4 0);
      size = from_bytes (slice tail 6 8);
      flags = shown_flags ip.transport;
      header = header;
    })
    else raise struct_error

-- A printed line: the number, the row and the verdict that came back, if there is a link.
pub record Row : Type 0 where
  pub number : ℕ
  pub row : Shown
  pub verdict : Option Description

-- What is printed, and how it ended: with the count or with an exception.
pub record Printed : Type 0 where
  pub rows : List Row
  pub ended : Result ℕ

-- `link` is the transfer of the link, if there is one.
module _ {W : Type 0} (link : Option (W → Bytes → W × Bytes)) where
  unfoldable pub exchanged : W → Bytes → W × Result (Option Description)
  exchanged w header = elim link [
    | none ↦ (w, ok none)
    | some xfer2 ↦ elim (send_frame xfer2 w header) [
      | raise e ↦ (w, raise e)
      | ok (w1, rx) ↦ (w1, decode_verdict rx >>= λ verdict. ok (some (describe verdict)))
    ]
  ]

  -- The handler for a packet that is captured, with the count before it.
  unfoldable pub show : W → ℕ → IpPacket → Bytes → W × Result Row
  show w count ip header = elim (format_row ip header) [
    | raise e ↦ (w, raise e)
    | ok row ↦
        let (w1, verdict) = exchanged w header in
        (w1, verdict >>= λ v. ok (record { number = count + 1; row = row; verdict = v }))
  ]

  unfoldable pub handle : W → ℕ → Option IpPacket → W × Result (Option Row)
  handle w count none = (w, ok none)
  handle w count (some ip) = elim (extract_header (some ip)) [
    | raise e ↦ (w, raise e)
    | ok none ↦ (w, ok none)
    | ok (some header) ↦ let (w1, row) = show w count ip header in (w1, row >>= λ r. ok (some r))
  ]

  -- What follows a call of the handler; `rest` handles the other packets.
  abbrev after_packet : W × Result (Option Row) → ℕ → (W → ℕ → W × Printed) → W × Printed
  after_packet (w, raise e) count rest = (w, record { rows = []; ended = raise e })
  after_packet (w, ok none) count rest = rest w count
  after_packet (w, ok (some row)) count rest =
      let (w1, printed) = rest w (count + 1) in (w1, record printed { rows = row ∷ printed.rows })

  -- The packets, from the count `count` on.
  unfoldable pub handle_all : W → ℕ → List (Option IpPacket) → W × Printed
  handle_all w count [] = (w, record { rows = []; ended = ok count })
  handle_all w count (pkt ∷ pkts) =
      after_packet (handle w count pkt) count (λ w1 n. handle_all w1 n pkts)

  -- `main`: `close` is called in the end, also behind an exception.
  unfoldable pub main : (W → W) → W → List (Option IpPacket) → W × Printed
  main close w pkts =
      let (w1, printed) = handle_all w 0 pkts in
      (elim link [ none ↦ w1 | some xfer2 ↦ close w1 ], printed)
