-- ===== src/Capture/Rows.antt =====
-- packet_capture.py: what the rows say, and that the link is closed.
use fpga_pi_parallel_nids.Prelude.{
  ℕ, ◌+◌, ◌≡◌, refl, sym, ap, ◌∙◌, ◌⊎◌, inl, inr, true, Bool-cases, Error, List, [], ◌∷◌, ◌++◌,
  Option, none, some, Result, ok, raise, Result-cases, arith, ◌==◌, struct_error, assertion_error,
  length, append_nil, append_one,
}
use fpga_pi_parallel_nids.Prelude.Bytes.{Bytes}
use fpga_pi_parallel_nids.Frames.{IpPacket, extract_header}
use fpga_pi_parallel_nids.SpiLink.{send_frame}
use fpga_pi_parallel_nids.Verdict.{Verdict, Description, describe, decode_verdict}
use fpga_pi_parallel_nids.Capture.{Row, Printed, exchanged, show, handle, handle_all, main}
use fpga_pi_parallel_nids.Capture.Headers.{
  row_of, header_of, is_packable, extract_header_eq, extract_header_lem, format_row_lem,
}

-- How the printed rows belong to the packets, from the count `n` on, and how it ends: packets that
-- are not IPv4 are skipped, each other one has a row with the next number that says what is in the
-- packet, and the first one that cannot be packed ends it with the exception.
pub data Captured : ℕ → List (Option IpPacket) → List Row → Result ℕ → Type 0 where
  finished : (n : ℕ) → Captured n [] [] (ok n)
  skipped :
      {n : ℕ} {pkts : List (Option IpPacket)} {rows : List Row} {r : Result ℕ}
      → Captured n pkts rows r
      → Captured n (none ∷ pkts) rows r
  shown :
      {n : ℕ} {pkts : List (Option IpPacket)} {rows : List Row} {r : Result ℕ}
      → (ip : IpPacket) (header : Bytes) (row : Row) → extract_header (some ip) ≡ ok (some header)
      → row.number ≡ n + 1
      → row.row ≡ row_of ip header
      → Captured (n + 1) pkts rows r
      → Captured n (some ip ∷ pkts) (row ∷ rows) r
  refused :
      {n : ℕ} {pkts : List (Option IpPacket)}
      → (ip : IpPacket) (e : Error) → extract_header (some ip) ≡ raise e
      → Captured n (some ip ∷ pkts) [] (raise e)

-- A device that answers a frame with as many bytes; `sent` is the log of the frames that it got.
pub record IsLogged {W : Type 0} (xfer2 : W → Bytes → W × Bytes) (sent : W → List Bytes)
    : Type 0 where
  pub size : (w : W) (f : Bytes) → length (xfer2 w f).1 ≡ length f
  pub log : (w : W) (f : Bytes) → sent (xfer2 w f).0 ≡ sent w ++ (f ∷ [])

abbrev pub headers_of : List Row → List Bytes
headers_of [] = []
headers_of (row ∷ rows) = row.row.header ∷ headers_of rows

extracted_some :
    (ip : IpPacket)
    → ((header : Bytes) × (extract_header (some ip) ≡ ok (some header)))
      ⊎ ((e : Error) × (extract_header (some ip) ≡ raise e))
extracted_some ip = elim (Bool-cases (is_packable ip)) [
  | inr no_fit ↦ inr (struct_error, rw (extract_header_eq ip, no_fit))
  | inl fit ↦ elim (Bool-cases (length (header_of ip) == 32)) [
    | inr short ↦ inr (assertion_error, rw (extract_header_eq ip, fit, short))
    | inl full ↦ inl (header_of ip, rw (extract_header_eq ip, fit, full))
  ]
]

decode_full : (rx : Bytes) → length rx ≡ 32 → (v : Verdict) × (decode_verdict rx ≡ ok v)
unfolding decode_verdict
decode_full rx full = elim (Result-cases (decode_verdict rx)) [
  | inl found ↦ found
  | inr (e, failed) ↦ absurd (ground (arith, full, failed))
]

module _ {W : Type 0} (xfer2 : W → Bytes → W × Bytes) (sent : W → List Bytes)
    (logged : IsLogged xfer2 sent) where
  exchanged_total :
      (w : W) (header : Bytes)
      → length header ≡ 32
      → (v : Description) × (exchanged (some xfer2) w header ≡ ((xfer2 w header).0, ok (some v)))
  unfolding exchanged send_frame
  exchanged_total w header full =
      let size : length (xfer2 w header).1 ≡ 32 = logged.size w header ∙ full in
      let (v, read) = decode_full (xfer2 w header).1 size in
      let passes : (length header == 32) ≡ true = ground (arith, full) in
      (describe v, rw (passes, read, exchanged))

  show_total :
      (w : W) (n : ℕ) (ip : IpPacket) (header : Bytes)
      → extract_header (some ip) ≡ ok (some header)
      → (row : Row) × (show (some xfer2) w n ip header ≡ ((xfer2 w header).0, ok row))
        × (row.number ≡ n + 1)
        × (row.row ≡ row_of ip header)
  unfolding show
  show_total w n ip header e =
      let (same, full, fit) = extract_header_lem ip header e in
      let (v, answered) = exchanged_total w header full in
      (
        record { number = n + 1; row = row_of ip header; verdict = some v },
        rw (format_row_lem ip header e, answered, show),
        refl,
        refl,
      )

  -- The rows from the count `n` on, and the log.
  abbrev Handled : ℕ → W → List (Option IpPacket) → W × Printed → Type 0
  Handled n w pkts r =
      Captured n pkts r.1.rows r.1.ended × (sent r.0 ≡ sent w ++ headers_of r.1.rows)

  handle_skipped : (w : W) (n : ℕ) → handle (some xfer2) w n none ≡ (w, ok none)
  unfolding handle
  handle_skipped w n = refl

  handle_refused :
      (w : W) (n : ℕ) (ip : IpPacket) (e : Error)
      → extract_header (some ip) ≡ raise e
      → handle (some xfer2) w n (some ip) ≡ (w, raise e)
  unfolding handle
  handle_refused w n ip e failed = rw (failed, handle)

  handle_shown :
      (w : W) (n : ℕ) (ip : IpPacket) (header : Bytes) (row : Row)
      → extract_header (some ip) ≡ ok (some header)
      → show (some xfer2) w n ip header ≡ ((xfer2 w header).0, ok row)
      → handle (some xfer2) w n (some ip) ≡ ((xfer2 w header).0, ok (some row))
  unfolding handle
  handle_shown w n ip header row e step = rw (e, step, handle)

  handle_all-Handled :
      (pkts : List (Option IpPacket)) (n : ℕ) (w : W)
      → Handled n w pkts (handle_all (some xfer2) w n pkts)
  unfolding handle_all
  handle_all-Handled [] n w = (Captured.finished n, sym (append_nil (sent w)))
  handle_all-Handled (none ∷ pkts) n w =
      let (all, log) = handle_all-Handled pkts n w in
      rw (handle_skipped w n) (Captured.skipped all, log)
  handle_all-Handled (some ip ∷ pkts) n w = elim (extracted_some ip) [
    | inr (e, failed) ↦
        rw (handle_refused w n ip e failed)
          (Captured.refused ip e failed, sym (append_nil (sent w)))
    | inl (header, e) ↦
        let (row, step, number, says) = show_total w n ip header e in
        let (w1, rx) = xfer2 w header in
        let (all, log) = handle_all-Handled pkts (n + 1) w1 in
        let rest = headers_of (handle_all (some xfer2) w1 (n + 1) pkts).1.rows in
        rw (handle_shown w n ip header row e step) (
          Captured.shown ip header row e number says all,
          log
              ∙ (ap (λ s. s ++ rest) (logged.log w header)
                  ∙ (append_one (sent w) header rest
                      ∙ ap (λ h. sent w ++ (h ∷ rest)) (sym (ap (λ r. r.header) says)))),
        )
  ]

  -- The capture over SPI shows every packet and leaves the link closed: on a device that answers a
  -- frame with as many bytes, for any packets that `sniff` hands over, the printed rows belong to
  -- them in order, numbered from 1, until a packet cannot be packed, which ends it with that
  -- exception; the device got the headers of these rows and nothing else; and in the end the link
  -- is closed, behind an exception too.
  pub main-Captured :
      (close : W → W) (w : W) (pkts : List (Option IpPacket))
      → (w1 : W) × (printed : Printed) × (main (some xfer2) close w pkts ≡ (close w1, printed))
        × Captured 0 pkts printed.rows printed.ended
        × (sent w1 ≡ sent w ++ headers_of printed.rows)
  unfolding main
  main-Captured close w pkts =
      let (all, log) = handle_all-Handled pkts 0 w in
      ((handle_all (some xfer2) w 0 pkts).0, (handle_all (some xfer2) w 0 pkts).1, refl, all, log)
