-- ===== src/Silicon/Queries/Counting.antt =====
-- silicon_telemetry_check.py: the check against a board that counts as the model does.
use fpga_pi_parallel_nids.Prelude.{
  ℕ, ◌+◌, ◌*◌, ◌%◌, ◌^◌, ◌≤◌, ◌<◌, bit_and, ◌≡◌, refl, sym, ap, ◌∙◌, Bool, true, not, ◌&&◌, List,
  [], ◌∷◌, ◌++◌, map, ok, ◌>>=◌, arith, lt→ltb, ◌==◌, get_or, length, set, All,
}
use fpga_pi_parallel_nids.Prelude.Bytes.{
  Bytes, zeros, be_digits, from_bytes, from_bytes-be_digits, slice,
}
use fpga_pi_parallel_nids.Prelude.Bits.{bit_and_mask}
use fpga_pi_parallel_nids.Cms
use fpga_pi_parallel_nids.Cms.{column, point_query}
use fpga_pi_parallel_nids.Cms.Stream.{after, point_query-after}
use fpga_pi_parallel_nids.Telemetry.{decode_query, encode_query}
use fpga_pi_parallel_nids.Telemetry.RoundTrip.{decode_query-encode_query}
use fpga_pi_parallel_nids.SpiLink.{send_frame}
use fpga_pi_parallel_nids.Silicon.Queries.{
  counted, cms_golden, source_frame, key_frame, issue_query, classify_all, query_all,
  telemetry_check,
}

-- The address in the first bytes of a frame, and its opcode.
abbrev pub source_of : Bytes → ℕ
source_of f = from_bytes (slice f 0 4)

abbrev pub opcode_of : Bytes → ℕ
opcode_of f = get_or f 16 0

-- What PROTOCOL.md says of a board with windows of one second: it answers one frame late, and in a
-- window a frame with the opcode 0 is a packet of its source and a point query is answered by the
-- sketch of the window's packets, on a fresh sketch. `seen` holds the sources of the window, the
-- latest first, and `left` says how many frames still come before the window ends. Nothing is
-- asked of a frame that comes when none is left, so of no window but those for which `left` counts.
pub record IsCounting {W : Type 0} (xfer2 : W → Bytes → W × Bytes) (seen : W → List ℕ)
    (left : W → ℕ) (pending : W → Bytes) : Type 0 where
  pub answer : (w : W) (f : Bytes) → (xfer2 w f).1 ≡ pending w
  pub one_less : (w : W) (f : Bytes) → 0 < left w → left w ≡ left (xfer2 w f).0 + 1
  pub packet :
      (w : W) (f : Bytes) → 0 < left w → opcode_of f ≡ 0 → seen (xfer2 w f).0 ≡ source_of f ∷ seen w
  pub query_counts_nothing :
      (w : W) (f : Bytes) → 0 < left w → opcode_of f ≡ 1 → seen (xfer2 w f).0 ≡ seen w
  pub reply :
      (w : W) (f reply : Bytes)
      → 0 < left w
      → opcode_of f ≡ 1
      → encode_query (source_of f) (point_query (after Cms.init (seen w)) (source_of f)) ≡ ok reply
      → pending (xfer2 w f).0 ≡ reply

-- A flush is a frame of zeros, so the board counts it as a packet of the source 0. The columns of
-- `key` are others than those of the source 0.
abbrev pub is_apart : ℕ → Bool
is_apart key =
    not (column 0 0 == column key 0)
    && (not (column 0 1 == column key 1)
        && (not (column 0 2 == column key 2)
            && (not (column 0 3 == column key 3) && not (column 0 4 == column key 4))))

-- Packets of the source 0 do not change the estimate of such a key.
flush_lem :
    (xs : List ℕ) (key : ℕ)
    → is_apart key ≡ true
    → point_query (after Cms.init (0 ∷ xs)) key ≡ point_query (after Cms.init xs) key
flush_lem xs key apart = ground (arith, point_query-after (0 ∷ xs) key, point_query-after xs key)

-- The packets of a list behind those of another, the latest first.
abbrev onto : List ℕ → List ℕ → List ℕ
onto xs [] = xs
onto xs (ip ∷ ips) = onto (ip ∷ xs) ips

counted-onto : (ips xs : List ℕ) → counted (after Cms.init xs) ips ≡ after Cms.init (onto xs ips)
unfolding after
counted-onto [] xs = refl
counted-onto (ip ∷ ips) xs = counted-onto ips (ip ∷ xs)

golden_lem :
    (ips queries : List ℕ)
    → cms_golden ips queries
      ≡ map (λ ip. (ip, point_query (after Cms.init (onto [] ips)) ip)) queries
unfolding cms_golden after
golden_lem ips queries =
    ap (λ cm. map (λ ip. (ip, point_query cm ip)) queries) (counted-onto ips [])

abbrev IsAddress : ℕ → Type 0
IsAddress ip = ip < 2 ^ 32

source_frame_lem :
    (ip : ℕ)
    → IsAddress ip
    → (f : Bytes) × (source_frame ip ≡ ok f)
      × (length f ≡ 32)
      × (opcode_of f ≡ 0)
      × (source_of f ≡ ip)
unfolding source_frame
source_frame_lem ip small =
    (be_digits 4 ip ++ zeros 28, ground arith, refl, refl, from_bytes-be_digits 4 ip small)

key_frame_lem :
    (key : ℕ)
    → IsAddress key
    → (f : Bytes) × (key_frame key ≡ ok f)
      × (length f ≡ 32)
      × (opcode_of f ≡ 1)
      × (source_of f ≡ key)
unfolding key_frame
key_frame_lem key small = (
  set (be_digits 4 key ++ zeros 28) 16 1,
  ground arith,
  refl,
  refl,
  from_bytes-be_digits 4 key small,
)

-- The reply for a key reads back as the key and its estimate.
reply_lem :
    (xs : List ℕ) (key : ℕ)
    → IsAddress key
    → let n = point_query (after Cms.init xs) key in
      (reply : Bytes) × (encode_query key n ≡ ok reply)
      × (decode_query reply ≡ ok (record { key = key; count = n }))
      × (get_or reply 0 0 ≡ 0x5A)
unfolding encode_query
reply_lem xs key small =
    let n = point_query (after Cms.init xs) key in
    let fits : n % 2 ^ 14 ≡ n = omega (arith, point_query-after xs key) in
    let low : bit_and n 0x3FFF ≡ n = bit_and_mask 14 n ∙ fits in
    let reply : Bytes = 0x5A ∷ (be_digits 4 key ++ (be_digits 2 n ++ zeros 25)) in
    let built : encode_query key n ≡ ok reply = ground (arith, low, small, fits) in
    let both = decode_query-encode_query key n in
    (
      reply,
      built,
      (ap (λ r. r >>= decode_query) (sym built) ∙ both) ∙ rw (lt→ltb key (2 ^ 32) small, fits),
      refl,
    )

module _ {W : Type 0} (xfer2 : W → Bytes → W × Bytes) (seen : W → List ℕ) (left : W → ℕ)
    (pending : W → Bytes) (board : IsCounting xfer2 seen left pending) where
  classify_all_total :
      (ips : List ℕ) (w : W) (more : ℕ)
      → length ips + more ≤ left w
      → All IsAddress ips
      → (w1 : W) × (classify_all xfer2 w ips ≡ ok w1)
        × (seen w1 ≡ onto (seen w) ips)
        × (more ≤ left w1)
  unfolding classify_all send_frame
  classify_all_total [] w more room small = (w, refl, refl, omega arith)
  classify_all_total (ip ∷ ips) w more room (here, small) =
      let (f, made, size, op, src) = source_frame_lem ip here in
      let some_left : 0 < left w = omega arith in
      let (w1, rest, list, lasts) =
        classify_all_total ips (xfer2 w f).0 more (omega (arith, board.one_less w f some_left))
          small in
      (
        w1,
        rw (made, size) rest,
        list ∙ ap (λ xs. onto xs ips) (board.packet w f some_left op ∙ ap (λ s. s ∷ seen w) src),
        lasts,
      )

  -- The board has the estimates of the packets `xs`, for the keys that are apart.
  abbrev Holds : List ℕ → W → Type 0
  Holds xs w =
      (key : ℕ)
      → is_apart key ≡ true
      → point_query (after Cms.init (seen w)) key ≡ point_query (after Cms.init xs) key

  flush-Holds : (xs : List ℕ) (w : W) → 0 < left w → Holds xs w → Holds xs (xfer2 w (zeros 32)).0
  flush-Holds xs w some_left holds key apart =
      rw (board.packet w (zeros 32) some_left refl) (flush_lem (seen w) key apart ∙ holds key apart)

  issue_query_total :
      (xs : List ℕ) (w : W) (key : ℕ)
      → Holds xs w
      → 2 ≤ left w
      → IsAddress key
      → is_apart key ≡ true
      → (w1 : W) × (rx : Bytes) × (issue_query xfer2 w key ≡ ok (w1, rx))
        × Holds xs w1
        × (left w ≡ left w1 + 2)
        × (decode_query rx ≡ ok (record { key = key; count = point_query (after Cms.init xs) key }))
        × (get_or rx 0 0 ≡ 0x5A)
  unfolding issue_query send_frame
  issue_query_total xs w key holds room small apart =
      let (f, made, size, op, src) = key_frame_lem key small in
      let (reply, built, read, magic) = reply_lem (seen w) key small in
      let (w1, _) = xfer2 w f in
      let some_left : 0 < left w = omega arith in
      let next = board.one_less w f some_left in
      let more_left : 0 < left w1 = omega (arith, next) in
      let held : Holds xs w1 =
        λ k a. rw (board.query_counts_nothing w f some_left op) (holds k a) in
      let due : pending w1 ≡ reply = board.reply w f reply some_left op (rw src built) in
      (
        (xfer2 w1 (zeros 32)).0,
        reply,
        rw (made, size, board.answer w1 (zeros 32), due),
        flush-Holds xs w1 more_left held,
        omega (arith, next, board.one_less w1 (zeros 32) more_left),
        read ∙ ap (λ n. ok (record { key = key; count = n })) (holds key apart),
        magic,
      )

  query_all_total :
      (queries xs : List ℕ) (w : W)
      → Holds xs w
      → 2 * length queries ≤ left w
      → All IsAddress queries
      → All (λ key. is_apart key ≡ true) queries
      → (w1 : W) × (query_all xfer2 w (map (λ ip. (ip, point_query (after Cms.init xs) ip)) queries)
          ≡ ok (w1, 0))
  unfolding query_all
  query_all_total [] xs w holds room small apart = (w, refl)
  query_all_total (key ∷ queries) xs w holds room (here, small) (this, apart) =
      let (w1, rx, issued, held, passed, read, magic) =
        issue_query_total xs w key holds (omega arith) here this in
      let (w2, rest) = query_all_total queries xs w1 held (omega (arith, passed)) small apart in
      (w2, rw (issued, magic, read, rest) (ground arith))

  -- The check passes on a board that counts as the model, within one window: for a stream and
  -- queries of 32-bit addresses, when the window is empty after the wait and lasts for all the
  -- frames of the run (one for each packet, a flush, and two for each query), and no row of the
  -- sketch has a queried address in the column of the source 0, the script returns exit code 0,
  -- although every flush of it is counted as a packet of that source.
  pub telemetry_check_total :
      (settle : W → W) (w : W) (ips queries : List ℕ)
      → seen (settle w) ≡ []
      → length ips + (1 + 2 * length queries) ≤ left (settle w)
      → All IsAddress ips
      → All IsAddress queries
      → All (λ key. is_apart key ≡ true) queries
      → (w1 : W) × (telemetry_check xfer2 settle w ips queries ≡ ok (w1, 0))
  unfolding telemetry_check cms_golden send_frame
  telemetry_check_total settle w ips queries empty room small asked apart =
      let xs = onto [] ips in
      let (w1, sent, list, lasts) =
        classify_all_total ips (settle w) (1 + 2 * length queries) room small in
      let some_left : 0 < left w1 = omega arith in
      let start : Holds xs w1 = λ key a. rw (list, empty) in
      let (w2, checked) =
        query_all_total queries xs (xfer2 w1 (zeros 32)).0 (flush-Holds xs w1 some_left start)
          (omega (arith, lasts, board.one_less w1 (zeros 32) some_left)) asked apart in
      (w2, rw (sent, golden_lem ips queries, checked))
