-- ===== src/SiliconCheck/Live.antt =====
-- spi_verdict_check.py: the golden stream is sent, and the verdicts that come back are judged.
use fpga_pi_parallel_nids.Prelude.{
  ℕ, ◌+◌, ◌≡◌, refl, sym, ap, List, [], ◌∷◌, ◌++◌, map, Result, Result-cases, inl, inr, ok, raise,
  ◌>>=◌, bit_and, if◌then◌else◌, arith, length, All,
}
use fpga_pi_parallel_nids.Prelude.Bytes.{Bytes, zeros}
use fpga_pi_parallel_nids.Ber.{send_all}
use fpga_pi_parallel_nids.Classifier.{Classifier, classify}
use fpga_pi_parallel_nids.Golden.{Label, Stream, GoldenRow, rows_from}
use fpga_pi_parallel_nids.SiliconCheck.{evaluate_run}
use fpga_pi_parallel_nids.SiliconCheck.Passing.{board, IsLong, evaluate_run-board}
use fpga_pi_parallel_nids.SpiLink.{frame_len, send_frame}

module _ {W : Type 0} (xfer2 : W → Bytes → W × Bytes) where
  -- `main` for the rows of a golden table, with its exit code.
  unfoldable pub live_check : W → List GoldenRow → Result (W × ℕ)
  live_check w rows = do
    (w1, rx_frames) ← send_all xfer2 w (map (λ row. row.header) rows ++ (zeros frame_len ∷ []))
    result ← evaluate_run rx_frames (map (λ row. row.verdict) rows)
    ok (w1, (if result.passed then 0 else 1))

-- What a board that works as the reference does: it answers one frame late, and classifies each
-- frame with its own sequence number and frame counter, which both go up by one.
pub record IsReference {W : Type 0} (xfer2 : W → Bytes → W × Bytes) (clf : W → Classifier)
    (seq count : W → ℕ) (pending : W → Bytes) : Type 0 where
  pub answer : (w : W) (f : Bytes) → (xfer2 w f).1 ≡ pending w
  pub next_classifier :
      (w : W) (f : Bytes) (c : Classifier) (v : Bytes)
      → classify (clf w) f (seq w) (count w) ≡ ok (c, v)
      → clf (xfer2 w f).0 ≡ c
  pub next_verdict :
      (w : W) (f : Bytes) (c : Classifier) (v : Bytes)
      → classify (clf w) f (seq w) (count w) ≡ ok (c, v)
      → pending (xfer2 w f).0 ≡ v
  pub next_seq : (w : W) (f : Bytes) → seq (xfer2 w f).0 ≡ seq w + 1
  pub next_count : (w : W) (f : Bytes) → count (xfer2 w f).0 ≡ count w + 1

abbrev pub IsFull : Label × Bytes → Type 0
IsFull x = length x.1 ≡ 32

full-IsLong : (stream : Stream) → All IsFull stream → All IsLong stream
full-IsLong [] h = tt
full-IsLong (x ∷ stream) (e, h) = (omega (arith, e), full-IsLong stream h)

abbrev headers : List GoldenRow → List Bytes
headers rows = map (λ row. row.header) rows

-- A successful chain of two steps, taken apart.
step_rows :
    (r : Result (Classifier × Bytes)) (rest : Classifier → Result (List GoldenRow))
    (row : Bytes → GoldenRow) (rows : List GoldenRow)
    → (◌>>=◌ {B = List GoldenRow} r (λ x. rest x.0 >>= λ more. ok (row x.1 ∷ more))) ≡ ok rows
    → (c : Classifier) × (v : Bytes) × (more : List GoldenRow) × (rest c ≡ ok more)
      × (row v ∷ more ≡ rows)
step_rows (raise x) rest row rows e = absurd cc
step_rows (ok (c, v)) rest row rows e = elim (Result-cases (rest c)) [
  | inl (more, m) ↦ (c, v, more, m, ground (arith, m, e))
  | inr (x, m) ↦ absurd (ground (arith, m, e))
]

headers_of :
    (c : Classifier) (i : ℕ) (stream : Stream) (rows : List GoldenRow)
    → rows_from c i stream ≡ ok rows
    → headers rows ≡ map (λ x. x.1) stream
unfolding rows_from
headers_of c i [] rows e = let same : [] ≡ rows = cc in rw (sym same)
headers_of c i ((label, h) ∷ stream) rows e =
    let (c1, v, more, m, same) =
      step_rows (classify c h (bit_and i 0xFF + 1) i) (λ t. rows_from t (i + 1) stream)
        (λ v. record { label = label; index = i; header = h; verdict = v }) rows e in
    rw (sym same) (ap (λ t. h ∷ t) (headers_of c1 (i + 1) stream more m))

step_board :
    (r : Result (Classifier × Bytes)) (rest : Classifier → Result (List Bytes)) (vs : List Bytes)
    → (◌>>=◌ {B = List Bytes} r (λ x. rest x.0 >>= λ more. ok (x.1 ∷ more))) ≡ ok vs
    → (c : Classifier) × (v : Bytes) × (more : List Bytes) × (r ≡ ok (c, v))
      × (rest c ≡ ok more)
      × (v ∷ more ≡ vs)
step_board (raise x) rest vs e = absurd cc
step_board (ok (c, v)) rest vs e = elim (Result-cases (rest c)) [
  | inl (more, m) ↦ (c, v, more, refl, m, ground (arith, m, e))
  | inr (x, m) ↦ absurd (ground (arith, m, e))
]

module _ {W : Type 0} (xfer2 : W → Bytes → W × Bytes) (clf : W → Classifier) (seq count : W → ℕ)
    (pending : W → Bytes) (reference : IsReference xfer2 clf seq count pending) where
  sent : (w : W) (f : Bytes) → length f ≡ 32 → send_frame xfer2 w f ≡ ok ((xfer2 w f).0, pending w)
  unfolding send_frame
  sent w f size = ground (arith, size, reference.answer w f)

  send_all-board :
      (w : W) (stream : Stream) (vs : List Bytes)
      → All IsFull stream
      → board (clf w) (seq w) (count w) stream ≡ ok vs
      → (w1 : W) × (send_all xfer2 w (map (λ x. x.1) stream ++ (zeros 32 ∷ []))
          ≡ ok (w1, pending w ∷ vs))
  unfolding send_all
  send_all-board w [] vs full e =
      ((xfer2 w (zeros 32)).0, let same : [] ≡ vs = cc in rw (sent w (zeros 32) refl, sym same))
  send_all-board w ((label, h) ∷ stream) vs (size, full) e =
      let w1 = (xfer2 w h).0 in
      let (c1, v, more, k, m, same) =
        step_board (classify (clf w) h (seq w) (count w))
          (λ t. board t (seq w + 1) (count w + 1) stream) vs e in
      let next : board (clf w1) (seq w1) (count w1) stream ≡ ok more =
        rw (reference.next_classifier w h c1 v k, reference.next_seq w h, reference.next_count w h)
          m in
      let (w2, l) = send_all-board w1 stream more full next in
      (w2, rw (sent w h size, l, reference.next_verdict w h c1 v k, sym same))

  -- The golden check passes on a board that works as the reference: for any stream of headers of 32
  -- bytes whose golden rows start at the board's classifier and frame counter, whatever the board's
  -- sequence number, and whatever 32 bytes it answers first, the script returns exit code 0.
  pub live_check_total :
      (w : W) (stream : Stream)
      → All IsFull stream
      → length (pending w) ≡ 32
      → (rows : List GoldenRow) × (w1 : W) × (rows_from (clf w) (count w) stream ≡ ok rows)
        × (live_check xfer2 w rows ≡ ok (w1, 0))
  unfolding live_check
  live_check_total w stream full size =
      let (rows, vs, r, made, answered, judged, passed) =
        evaluate_run-board (clf w) (seq w) (count w) stream (pending w) (full-IsLong stream full)
          size in
      let (w1, l) = send_all-board w stream vs full answered in
      (rows, w1, made, rw (headers_of (clf w) (count w) stream rows made, l, judged, passed))
