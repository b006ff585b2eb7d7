-- ===== src/Frames.antt =====
-- The 32-byte frames that the Pi builds for classification: build_classify_frame of
-- demo/scenarios.py, classify_frame of silicon_flow_check.py, hdr of scenarios.py, the header of
-- packet_capture.py, and query_frame of read_telemetry.py.
pub mod Headers
use fpga_pi_parallel_nids.Prelude.{
  ℕ, ◌-◌, ◌^◌, bit_and, List, [], ◌∷◌, ◌++◌, Option, none, some, Result, ok, raise, value_error,
  struct_error, assertion_error, ◌>>=◌, ltb, ◌==◌, if◌then◌else◌, length, set,
}
use fpga_pi_parallel_nids.Prelude.Bytes.{Bytes, zeros, be_digits, to_bytes, set_slice}

abbrev pub frame_len : ℕ
frame_len = 32

abbrev pub op_classify : ℕ
op_classify = 0x00

-- A byte stored into a `bytearray`: `f[i] = b`.
abbrev pub set_byte : Bytes → ℕ → ℕ → Result Bytes
set_byte f i b = if ltb b 256 then ok (set f i b) else raise value_error

-- demo/scenarios.py
unfoldable pub build_classify_frame : ℕ → ℕ → ℕ → ℕ → ℕ → ℕ → ℕ → Result Bytes
build_classify_frame src_ip dst_ip src_port dst_port proto flags size = do
  let f0 = zeros frame_len
  src ← to_bytes (bit_and src_ip 0xFFFFFFFF) 4
  let f1 = set_slice f0 0 4 src
  dst ← to_bytes (bit_and dst_ip 0xFFFFFFFF) 4
  let f2 = set_slice f1 4 8 dst
  sport ← to_bytes (bit_and src_port 0xFFFF) 2
  let f3 = set_slice f2 8 10 sport
  dport ← to_bytes (bit_and dst_port 0xFFFF) 2
  let f4 = set_slice f3 10 12 dport
  f5 ← set_byte f4 12 (bit_and proto 0xFF)
  f6 ← set_byte f5 13 (bit_and flags 0xFF)
  bytes ← to_bytes (bit_and size 0xFFFF) 2
  set_byte (set_slice f6 14 16 bytes) 16 op_classify

-- silicon_flow_check.py: nothing is masked.
unfoldable pub classify_frame : ℕ → ℕ → ℕ → ℕ → ℕ → ℕ → Result Bytes
classify_frame src_ip dst_ip dst_port proto flags size = do
  src ← to_bytes src_ip 4
  dst ← to_bytes dst_ip 4
  dport ← to_bytes dst_port 2
  let f3 = set_slice (set_slice (set_slice (zeros frame_len) 0 4 src) 4 8 dst) 10 12 dport
  f4 ← set_byte f3 12 proto
  f5 ← set_byte f4 13 flags
  bytes ← to_bytes size 2
  ok (set_slice f5 14 16 bytes)

-- One unsigned field of `n` bytes of `struct.pack`.
abbrev pub pack_field : ℕ → ℕ → Result Bytes
pack_field n x = if ltb x (256 ^ n) then ok (be_digits n x) else raise struct_error

-- scenarios.py, before `.hex()`
unfoldable pub hdr : ℕ → ℕ → ℕ → ℕ → ℕ → ℕ → ℕ → Result Bytes
hdr src dst sport dport proto flags size = do
  a ← pack_field 4 src
  b ← pack_field 4 dst
  c ← pack_field 2 sport
  d ← pack_field 2 dport
  e ← pack_field 1 proto
  f ← pack_field 1 flags
  g ← pack_field 2 size
  ok ((a ++ (b ++ (c ++ (d ++ (e ++ (f ++ g)))))) ++ zeros 16)

-- read_telemetry.py
unfoldable pub query_frame : ℕ → ℕ → Result Bytes
query_frame opcode key = do
  bytes ← to_bytes key 4
  set_byte (set_slice (zeros frame_len) 0 4 bytes) 16 opcode

-- What packet_capture.py reads of a packet (scapy's): the addresses as the four bytes of
-- `inet_aton`, the ports of the transport layer if there is one, and the length.
pub data Transport : Type 0 where
  tcp : ℕ → ℕ → ℕ → Transport
  udp : ℕ → ℕ → Transport
  other : Transport

pub record IpPacket : Type 0 where
  pub src : Bytes
  pub dst : Bytes
  pub proto : ℕ
  pub transport : Transport
  pub len : ℕ

abbrev pub ports_and_flags : Transport → ℕ × ℕ × ℕ
ports_and_flags (tcp sport dport flags) = (sport, dport, flags)
ports_and_flags (udp sport dport) = (sport, dport, 0)
ports_and_flags other = (0, 0, 0)

abbrev pub header_len : ℕ
header_len = frame_len

-- `none` for a packet that is not IPv4.
unfoldable pub extract_header : Option IpPacket → Result (Option Bytes)
extract_header none = ok none
extract_header (some ip) =
    let (src_port, dst_port, flags) = ports_and_flags ip.transport in
    do
      a ← pack_field 2 src_port
      b ← pack_field 2 dst_port
      c ← pack_field 1 ip.proto
      d ← pack_field 1 flags
      e ← pack_field 2 (bit_and ip.len 0xFFFF)
      f ← pack_field 4 0
      let header =
          ip.src ++ (ip.dst ++ ((a ++ (b ++ (c ++ (d ++ (e ++ f))))) ++ zeros (header_len - 20)))
      if length header == header_len then ok (some header) else raise assertion_error
