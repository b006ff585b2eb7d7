-- ===== src/Wiring/Echoed.antt =====
-- spi_fpga_bringup.py and spi_loopback_test.py: what an echo makes of the checks.
use fpga_pi_parallel_nids.Prelude.{
  ℕ, zero, suc, ◌+◌, ◌≡◌, Bool, false, ◌||◌, refl, sym, ap, ◌∙◌, List, [], ◌∷◌, ◌++◌, ok, arith,
  if◌then◌else◌, length, length-append, length-replicate, replicate, All, append_nil, append_assoc,
  append_one,
}
use fpga_pi_parallel_nids.Prelude.Bytes.{Bytes, zeros, truthy}
use fpga_pi_parallel_nids.Ber.{at, send_all}
use fpga_pi_parallel_nids.Ber.Echo.{IsFull, same_bytes_refl, at-append}
use fpga_pi_parallel_nids.SpiLink.{send_frame}
use fpga_pi_parallel_nids.Wiring.{
  bytes_from, frames, patterns, link_verified, loopback_verified, passed_from, bringup_report,
  bringup, loop_back, loopback, any_set,
}

-- An echo through a pipeline: `queue` holds the frames on their way, the oldest first, and a
-- transfer answers with the oldest of those and the frame that it sends.
pub record IsPipeline {W : Type 0} (xfer2 : W → Bytes → W × Bytes) (queue : W → List Bytes)
    : Type 0 where
  pub moves : (w : W) (f : Bytes) → (xfer2 w f).1 ∷ queue (xfer2 w f).0 ≡ queue w ++ (f ∷ [])

-- Two lists of one length that begin lists which are equal.
prefix_eq : (xs ys cs ds : List Bytes) → length xs ≡ length ys → xs ++ cs ≡ ys ++ ds → xs ≡ ys
prefix_eq [] [] cs ds n e = refl
prefix_eq [] (b ∷ ys) cs ds n e = absurd (omega arith)
prefix_eq (a ∷ xs) [] cs ds n e = absurd (omega arith)
prefix_eq (a ∷ xs) (b ∷ ys) cs ds n e = cc (prefix_eq xs ys cs ds (omega arith) (cc))

frames-IsFull : All IsFull frames
unfolding bytes_from
frames-IsFull = (refl, (refl, (refl, (refl, tt))))

flushed-IsFull :
    (fs : List Bytes) (n : ℕ) → All IsFull fs → All IsFull (fs ++ replicate n (zeros 32))
flushed-IsFull [] zero full = tt
flushed-IsFull [] (suc n) full = (refl, flushed-IsFull [] n tt)
flushed-IsFull (f ∷ fs) n (here, full) = (here, flushed-IsFull fs n full)

-- The reads of frames that come behind as many others.
passed_from-all :
    (i delay : ℕ) (lead rest : List Bytes)
    → length lead ≡ i + delay
    → passed_from i delay (lead ++ rest) rest ≡ ok (length rest)
unfolding passed_from
passed_from-all i delay lead [] n = refl
passed_from-all i delay lead (f ∷ rest) n =
    let found : at (lead ++ (f ∷ rest)) (i + delay) ≡ ok f = rw (sym n) (at-append lead f rest) in
    let later : passed_from (i + 1) delay (lead ++ (f ∷ rest)) rest ≡ ok (length rest) =
      rw (sym (append_one lead f rest)) (
        passed_from-all (i + 1) delay (lead ++ (f ∷ [])) rest
          (omega (arith, n, length-append lead (f ∷ [])))) in
    rw (found, later, same_bytes_refl f)
      (let one : 1 + length rest ≡ suc (length rest) = omega arith in ap ok one)

module _ {W : Type 0} (xfer2 : W → Bytes → W × Bytes) (queue : W → List Bytes)
    (pipeline : IsPipeline xfer2 queue) where
  send_all-pipeline :
      (fs : List Bytes) (w : W)
      → All IsFull fs
      → (w1 : W) × (got : List Bytes) × (send_all xfer2 w fs ≡ ok (w1, got))
        × (got ++ queue w1 ≡ queue w ++ fs)
        × (length got ≡ length fs)
  unfolding send_all send_frame
  send_all-pipeline [] w full = (w, [], refl, sym (append_nil (queue w)), refl)
  send_all-pipeline (f ∷ fs) w (here, full) =
      let (w1, rx) = xfer2 w f in
      let (w2, got, e, moved, many) = send_all-pipeline fs w1 full in
      (
        w2,
        rx ∷ got,
        ground (arith, here, e),
        ap (λ t. rx ∷ t) moved
            ∙ (ap (λ t. t ++ fs) (pipeline.moves w f) ∙ append_one (queue w) f fs),
        ap suc many,
      )

  -- The bring-up passes on an echo of its depth: when a transfer answers with the frame of `delay`
  -- transfers before, whatever frames are on their way at the start, the script matches all its
  -- frames and returns exit code 0.
  pub bringup_total :
      (delay : ℕ) (w : W)
      → length (queue w) ≡ delay
      → (w1 : W) × (bringup xfer2 delay w
          ≡ ok (
            w1,
            record {
              passed = 4;
              advice = (if truthy delay then link_verified else loopback_verified);
              exit_code = 0;
            },
          ))
  unfolding bringup bringup_report
  bringup_total delay w depth =
      let flush = replicate delay (zeros 32) in
      let (w1, got, e, moved, many) =
        send_all-pipeline (frames ++ flush) w (flushed-IsFull frames delay frames-IsFull) in
      let n : length got ≡ length (queue w ++ frames) = omega (
        arith,
        many,
        depth,
        length-append frames flush,
        length-append (queue w) frames,
        length-replicate delay (zeros 32),
      ) in
      let same : got ≡ queue w ++ frames =
        prefix_eq got (queue w ++ frames) (queue w1) flush n
          (moved ∙ sym (append_assoc (queue w) frames flush)) in
      (w1, rw (e, same, passed_from-all 0 delay (queue w) frames (omega (arith, depth))))

  loop_back-wire :
      (fs : List Bytes) (w : W)
      → queue w ≡ []
      → All IsFull fs
      → (w1 : W) × (heard : Bool) × (loop_back xfer2 w fs ≡ ok (w1, (length fs, heard)))
  unfolding loop_back send_frame
  loop_back-wire [] w empty full = (w, false, refl)
  loop_back-wire (f ∷ fs) w empty (here, full) =
      let (w1, rx) = xfer2 w f in
      let moved : rx ∷ queue w1 ≡ f ∷ [] = rw (pipeline.moves w f, empty) in
      let (w2, heard, e) = loop_back-wire fs w1 (cc moved) full in
      let echoed : rx ≡ f = cc moved in
      let one : 1 + length fs ≡ suc (length fs) = omega arith in
      (
        w2,
        any_set f || heard,
        rw (here, e, echoed, same_bytes_refl f) (ap (λ k. ok (w2, (k, any_set f || heard))) one),
      )

  -- With the jumper, which echoes without delay, the loopback test passes.
  loopback_total :
      (w : W)
      → queue w ≡ []
      → (w1 : W) × (loopback xfer2 w
          ≡ ok (w1, record { passed = 4; advice = loopback_verified; exit_code = 0 }))
  unfolding loopback bytes_from
  loopback_total w empty =
      let (w1, heard, e) = loop_back-wire patterns w empty (refl, (refl, (refl, (refl, tt)))) in
      (w1, rw e)
