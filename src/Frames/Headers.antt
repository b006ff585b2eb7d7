-- ===== src/Frames/Headers.antt =====
-- The classifier reads back what the frame builders wrote.
use fpga_pi_parallel_nids.Prelude.{
  ℕ, ◌%◌, ◌^◌, ◌<◌, ◌≡◌, ◌&&◌, ◌++◌, Option, some, none, Result, ok, raise, struct_error, ◌>>=◌,
  arith, ltb, if◌then◌else◌,
}
use fpga_pi_parallel_nids.Prelude.Bits.{bit_and_mask}
use fpga_pi_parallel_nids.Prelude.Bytes.{Bytes, zeros, be_digits}
use fpga_pi_parallel_nids.Classifier.{Header, parse, unpack}
use fpga_pi_parallel_nids.Frames.{
  build_classify_frame, hdr, extract_header, Transport, tcp, udp, other, ports_and_flags,
}

-- The frame of the protocol for a header.
abbrev pub header_frame : Header → Bytes
header_frame h =
    be_digits 4 h.src_ip
    ++ (be_digits 4 h.dst_ip
        ++ (be_digits 2 h.src_port
            ++ (be_digits 2 h.dst_port
                ++ (be_digits 1 h.proto
                    ++ (be_digits 1 h.flags ++ (be_digits 2 h.size ++ zeros 16))))))

-- The fields fit their bytes.
abbrev pub Fits : Header → Type 0
Fits h =
    (h.src_ip < 2 ^ 32)
    × (h.dst_ip < 2 ^ 32)
    × (h.src_port < 2 ^ 16)
    × (h.dst_port < 2 ^ 16)
    × (h.proto < 256)
    × (h.flags < 256)
    × (h.size < 2 ^ 16)

pub parse-header_frame : (h : Header) → Fits h → parse (header_frame h) ≡ ok h
unfolding parse unpack
parse-header_frame h fits = ground arith

abbrev pub masked : Header → Header
masked h = record {
  src_ip = h.src_ip % 2 ^ 32;
  dst_ip = h.dst_ip % 2 ^ 32;
  src_port = h.src_port % 2 ^ 16;
  dst_port = h.dst_port % 2 ^ 16;
  proto = h.proto % 256;
  flags = h.flags % 256;
  size = h.size % 2 ^ 16;
}

pub build_classify_frame_lem :
    (h : Header)
    → build_classify_frame h.src_ip h.dst_ip h.src_port h.dst_port h.proto h.flags h.size
      ≡ ok (header_frame (masked h))
unfolding build_classify_frame
build_classify_frame_lem h = ground (
  arith,
  bit_and_mask 32 h.src_ip,
  bit_and_mask 32 h.dst_ip,
  bit_and_mask 16 h.src_port,
  bit_and_mask 16 h.dst_port,
  bit_and_mask 8 h.proto,
  bit_and_mask 8 h.flags,
  bit_and_mask 16 h.size,
)

-- Building a classification frame never fails, and the classifier parses it to the arguments, each
-- modulo the width of its field.
pub parse-build_classify_frame :
    (h : Header)
    → (build_classify_frame h.src_ip h.dst_ip h.src_port h.dst_port h.proto h.flags h.size
        >>= parse)
      ≡ ok (masked h)
parse-build_classify_frame h =
    rw (build_classify_frame_lem h) (parse-header_frame (masked h) (omega arith))

-- The header of a golden scenario is refused with struct.error when a field does not fit, and
-- otherwise the classifier parses it to the same fields.
pub parse-hdr :
    (h : Header)
    → (hdr h.src_ip h.dst_ip h.src_port h.dst_port h.proto h.flags h.size >>= parse) ≡ (
        if ltb h.src_ip (2 ^ 32)
          && (ltb h.dst_ip (2 ^ 32)
              && (ltb h.src_port (2 ^ 16)
                  && (ltb h.dst_port (2 ^ 16)
                      && (ltb h.proto 256 && (ltb h.flags 256 && ltb h.size (2 ^ 16))))))
        then ok h
        else raise struct_error)
unfolding hdr
parse-hdr h = ground (arith, parse-header_frame h)

-- The classifier's reading of a captured packet, `none` for one that is not captured.
abbrev pub read_captured : Option Bytes → Result (Option Header)
read_captured none = ok none
read_captured (some b) = parse b >>= λ h. ok (some h)

-- A captured IPv4 packet is refused with struct.error when a port, the protocol or the flags do not
-- fit, and otherwise the classifier parses its header to its addresses, its ports and flags (0 where
-- the transport has none), and its length modulo 2 ** 16.
pub parse-extract_header :
    (src dst proto len : ℕ) (t : Transport)
    → src < 2 ^ 32
    → dst < 2 ^ 32
    → (extract_header (
          some (record {
            src = be_digits 4 src;
            dst = be_digits 4 dst;
            proto = proto;
            transport = t;
            len = len;
          }))
        >>= read_captured)
      ≡ (if ltb (ports_and_flags t).0 (2 ^ 16)
            && (ltb (ports_and_flags t).1 (2 ^ 16)
                && (ltb proto 256 && ltb (ports_and_flags t).2 256))
          then ok (
              some (record {
                src_ip = src;
                dst_ip = dst;
                src_port = (ports_and_flags t).0;
                dst_port = (ports_and_flags t).1;
                proto = proto;
                flags = (ports_and_flags t).2;
                size = len % 2 ^ 16;
              }))
          else raise struct_error)
unfolding extract_header parse unpack
parse-extract_header src dst proto len (tcp sport dport flags) hs hd =
    ground (arith, bit_and_mask 16 len)
parse-extract_header src dst proto len (udp sport dport) hs hd = ground (arith, bit_and_mask 16 len)
parse-extract_header src dst proto len other hs hd = ground (arith, bit_and_mask 16 len)
