-- ===== src/Capture/Headers.antt =====
-- packet_capture.py: what an extracted header shows of its packet.
use fpga_pi_parallel_nids.Prelude.{
  ℕ, zero, suc, ◌%◌, ◌^◌, ◌<◌, ◌≡◌, refl, sym, ap, ◌∙◌, inl, inr, Bool, true, Bool-cases, [], ◌∷◌,
  ◌++◌, some, ok, raise, arith, ltb, lt→ltb, ◌==◌, ◌&&◌, struct_error, assertion_error,
  if◌then◌else◌, length, length-append, drop, append_assoc,
}
use fpga_pi_parallel_nids.Prelude.Bits.{bit_and_mask}
use fpga_pi_parallel_nids.Prelude.Bytes.{Bytes, zeros, be_digits}
use fpga_pi_parallel_nids.Frames.{IpPacket, ports_and_flags, extract_header}
use fpga_pi_parallel_nids.Capture.{proto_name, shown_flags, Shown, format_row}

abbrev pub row_of : IpPacket → Bytes → Shown
row_of ip header = record {
  src = ip.src;
  src_port = (ports_and_flags ip.transport).0;
  dst = ip.dst;
  dst_port = (ports_and_flags ip.transport).1;
  proto = proto_name ip.proto;
  size = ip.len % 2 ^ 16;
  flags = shown_flags ip.transport;
  header = header;
}

pub drop-append : (xs ys : Bytes) (n : ℕ) → length xs ≡ n → drop n (xs ++ ys) ≡ ys
drop-append [] ys zero e = refl
drop-append [] ys (suc n) e = absurd (omega arith)
drop-append (x ∷ xs) ys zero e = absurd (omega arith)
drop-append (x ∷ xs) ys (suc n) e = drop-append xs ys n (omega arith)

-- The bytes behind the addresses.
abbrev pub tail_of : ℕ → ℕ → ℕ → ℕ → ℕ → Bytes
tail_of sport dport proto flags size =
    be_digits 2 sport
    ++ (be_digits 2 dport
        ++ (be_digits 1 proto ++ (be_digits 1 flags ++ (be_digits 2 size ++ zeros 16))))

-- An extracted header has 32 bytes, and its fields behind the addresses are those of the packet.
abbrev pub Extracted : IpPacket → Bytes → Type 0
Extracted ip header =
    let (sport, dport, flags) = ports_and_flags ip.transport in
    (header ≡ (ip.src ++ ip.dst) ++ tail_of sport dport ip.proto flags (ip.len % 2 ^ 16))
    × (length header ≡ 32)
    × (sport < 2 ^ 16)
    × (dport < 2 ^ 16)
    × (ip.proto < 256)

abbrev pub header_of : IpPacket → Bytes
header_of ip =
    let (sport, dport, flags) = ports_and_flags ip.transport in
    ip.src ++ (ip.dst ++ tail_of sport dport ip.proto flags (ip.len % 2 ^ 16))

-- The ports, the protocol and the flags fit their fields.
abbrev pub is_packable : IpPacket → Bool
is_packable ip =
    let (sport, dport, flags) = ports_and_flags ip.transport in
    ltb sport (2 ^ 16) && (ltb dport (2 ^ 16) && (ltb ip.proto 256 && ltb flags 256))

pub extract_header_eq :
    (ip : IpPacket)
    → extract_header (some ip) ≡ (
        if is_packable ip
        then (if length (header_of ip) == 32
            then ok (some (header_of ip))
            else raise assertion_error)
        else raise struct_error)
unfolding extract_header
extract_header_eq ip =
    let (sport, dport, flags) = ports_and_flags ip.transport in
    rw (bit_and_mask 16 ip.len) (elim (Bool-cases (ltb sport 65536)) [
      | inr no_fit ↦ rw no_fit
      | inl a ↦ elim (Bool-cases (ltb dport 65536)) [
        | inr no_fit ↦ rw (a, no_fit)
        | inl b ↦ elim (Bool-cases (ltb ip.proto 256)) [
          | inr no_fit ↦ rw (a, b, no_fit)
          | inl c ↦ elim (Bool-cases (ltb flags 256)) [
            | inr no_fit ↦ rw (a, b, c, no_fit)
            | inl d ↦ rw (a, b, c, d, lt→ltb (ip.len % 65536) 65536 (omega arith))
          ]
        ]
      ]
    ])

-- What is extracted is that header of 32 bytes, and it shows as the packet.
pub extract_header_lem :
    (ip : IpPacket) (header : Bytes)
    → extract_header (some ip) ≡ ok (some header)
    → (header ≡ header_of ip) × (length header ≡ 32) × (is_packable ip ≡ true)
extract_header_lem ip header e = elim (Bool-cases (is_packable ip)) [
  | inr no_fit ↦ absurd (ground (arith, extract_header_eq ip, no_fit, e))
  | inl fit ↦ elim (Bool-cases (length (header_of ip) == 32)) [
    | inr short ↦ absurd (ground (arith, extract_header_eq ip, fit, short, e))
    | inl full ↦
        let same : header ≡ header_of ip = cc (extract_header_eq ip, fit, full, e) in
        (same, rw same (ground (arith, full)), fit)
  ]
]

pub format_row_lem :
    (ip : IpPacket) (header : Bytes)
    → extract_header (some ip) ≡ ok (some header)
    → format_row ip header ≡ ok (row_of ip header)
unfolding format_row
format_row_lem ip header e =
    let (same, full, fit) = extract_header_lem ip header e in
    let (sport, dport, flags) = ports_and_flags ip.transport in
    let tail = tail_of sport dport ip.proto flags (ip.len % 2 ^ 16) in
    let front : header ≡ (ip.src ++ ip.dst) ++ tail =
      same ∙ sym (append_assoc ip.src ip.dst tail) in
    let eight : length (ip.src ++ ip.dst) ≡ 8 =
      omega (arith, full, ap length front, length-append (ip.src ++ ip.dst) tail) in
    let behind : drop 8 header ≡ tail =
      ap (drop 8) front ∙ drop-append (ip.src ++ ip.dst) tail 8 eight in
    rw behind (ground (arith, fit))
