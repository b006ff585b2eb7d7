-- ===== src/Ber/Echo.antt =====
-- ber.py: what the numbers of a ramp say.
use Prim.Native.Nat.{differ}
use fpga_pi_parallel_nids.Prelude.{
  append_one, ℕ, zero, suc, ◌+◌, ◌-◌, ◌/◌, ◌%◌, ◌≤◌, ◌≡◌, refl, sym, ap, ◌∙◌, inl, inr, bit_xor,
  Bool-cases, true, List, [], ◌∷◌, ◌++◌, ok, arith, if◌then◌else◌, length, take, length-take, All,
}
use fpga_pi_parallel_nids.Prelude.Bits.{popcount, popcount-zero, bit_xor_step}
use fpga_pi_parallel_nids.Prelude.Bytes.{Bytes, zeros}
use fpga_pi_parallel_nids.SpiLink.{send_frame}
use fpga_pi_parallel_nids.Ber.{
  RampResult, same_bytes, bit_errors_of, at, tally, compare_from, bits_of, ramp_errors, send_all,
  but_last, run_one,
}

pub same_bytes_refl : (bs : Bytes) → same_bytes bs bs ≡ true
unfolding same_bytes
same_bytes_refl [] = refl
same_bytes_refl (b ∷ bs) = ground (arith, same_bytes_refl bs)

pub same_bytes_eq : (a b : Bytes) → same_bytes a b ≡ true → a ≡ b
unfolding same_bytes
same_bytes_eq [] [] e = refl
same_bytes_eq [] (y ∷ b) e = absurd (ground arith)
same_bytes_eq (x ∷ a) [] e = absurd (ground arith)
same_bytes_eq (x ∷ a) (y ∷ b) e = ground (arith, same_bytes_eq a b (ground arith))

differ_self : (n : ℕ) → differ n n ≡ 0
differ_self zero = refl
differ_self (suc n) = differ_self n

xor_self_below : (bound x : ℕ) → x ≤ bound → bit_xor x x ≡ 0
xor_self_below zero x h = let e : x ≡ 0 = omega arith in rw e
xor_self_below (suc bound) zero h = refl
xor_self_below (suc bound) (suc x) h = omega (
  arith,
  bit_xor_step (suc x) (suc x),
  xor_self_below bound (suc x / 2) (omega arith),
  differ_self (suc x % 2),
)

bit_errors_of_refl : (bs : Bytes) → bit_errors_of bs bs ≡ 0
unfolding bit_errors_of
bit_errors_of_refl [] = refl
bit_errors_of_refl (b ∷ bs) =
    omega
      (arith, bit_errors_of_refl bs, ap popcount (xor_self_below b b (omega arith)), popcount-zero)

-- The number of positions at which two streams differ, and the bits in which they do.
abbrev pub wrong_frames : List Bytes → List Bytes → ℕ
wrong_frames [] got = 0
wrong_frames (e ∷ exp) [] = 0
wrong_frames (e ∷ exp) (g ∷ got) = (if same_bytes g e then 0 else 1) + wrong_frames exp got

abbrev pub wrong_bits : List Bytes → List Bytes → ℕ
wrong_bits [] got = 0
wrong_bits (e ∷ exp) [] = 0
wrong_bits (e ∷ exp) (g ∷ got) = bit_errors_of e g + wrong_bits exp got

pub length-append_one : (xs : List Bytes) (y : Bytes) → length (xs ++ (y ∷ [])) ≡ length xs + 1
length-append_one [] y = refl
length-append_one (x ∷ xs) y = omega (arith, length-append_one xs y)

pub at-append :
    (xs : List Bytes) (y : Bytes) (ys : List Bytes) → at (xs ++ (y ∷ ys)) (length xs) ≡ ok y
at-append [] y ys = refl
at-append (x ∷ xs) y ys = at-append xs y ys

-- What the comparison of `exp` with `got` adds to a result.
abbrev compared : RampResult → List Bytes → List Bytes → RampResult
compared r exp got = record r {
  frames_compared = r.frames_compared + length got;
  frame_errors = r.frame_errors + wrong_frames exp got;
  bit_errors = r.bit_errors + wrong_bits exp got;
}

tally_lem :
    (r : RampResult) (e g : Bytes) (exp got : List Bytes)
    → compared (tally r e g) exp got ≡ compared r (e ∷ exp) (g ∷ got)
unfolding tally
tally_lem r e g exp got = elim (Bool-cases (same_bytes g e)) [
  | inl same ↦
      ground (arith, same, bit_errors_of_refl e, ap (bit_errors_of e) (same_bytes_eq g e same))
  | inr other ↦ ground (arith, other)
]

none_left : (r : RampResult) (exp : List Bytes) → r ≡ compared r exp []
none_left r [] = ground arith
none_left r (e ∷ exp) = ground arith

compare_from_lem :
    (k delay : ℕ) (sent received a b exp got : List Bytes) (r : RampResult)
    → sent ≡ a ++ exp
    → received ≡ b ++ got
    → length a ≡ k - delay
    → length b ≡ k
    → delay ≤ k
    → length got ≤ length exp
    → compare_from (length got) k delay sent received r ≡ ok (compared r exp got)
unfolding compare_from
compare_from_lem k delay sent received a b exp [] r s t la lb le enough = ap ok (none_left r exp)
compare_from_lem k delay sent received a b [] (g ∷ got) r s t la lb le enough = absurd (omega arith)
compare_from_lem k delay sent received a b (e ∷ exp) (g ∷ got) r s t la lb le enough =
    let x : at sent (k - delay) ≡ ok e = rw (s, sym la) (at-append a e exp) in
    let y : at received k ≡ ok g = rw (t, sym lb) (at-append b g got) in
    rw (x, y)
      (compare_from_lem (k + 1) delay sent received (a ++ (e ∷ [])) (b ++ (g ∷ [])) exp got
          (tally r e g) (s ∙ sym (append_one a e exp)) (t ∙ sym (append_one b g got))
          (omega (arith, length-append_one a e)) (omega (arith, length-append_one b g))
          (omega arith) (omega arith)
        ∙ ap ok (tally_lem r e g exp got))

-- The numbers of a ramp are exact: when a read came for every frame, and the first `delay` of them
-- are left out, the frames compared are the rest, the frame errors count the reads that are not
-- the frame sent `delay` before, and the bit errors count their different bits.
pub ramp_errors_lem :
    (sent lead got : List Bytes)
    → length lead + length got ≡ length sent
    → ramp_errors sent (lead ++ got) (length lead)
      ≡ ok (record {
        frames_compared = length got;
        frame_errors = wrong_frames sent got;
        bit_errors = wrong_bits sent got;
        frame_bits = bits_of sent;
      })
unfolding ramp_errors
ramp_errors_lem sent lead got full =
    let count : length sent - length lead ≡ length got = omega (arith, full) in
    rw count (
      compare_from_lem (length lead) (length lead) sent (lead ++ got) [] lead sent got
        (record {
          frames_compared = 0;
          frame_errors = 0;
          bit_errors = 0;
          frame_bits = bits_of sent;
        })
        refl refl (omega arith) refl (omega arith) (omega (arith, full))
      ∙ ground arith)

wrong_frames-take : (n : ℕ) (exp : List Bytes) → wrong_frames exp (take n exp) ≡ 0
wrong_frames-take zero [] = refl
wrong_frames-take zero (e ∷ exp) = refl
wrong_frames-take (suc n) [] = refl
wrong_frames-take (suc n) (e ∷ exp) = ground (arith, same_bytes_refl e, wrong_frames-take n exp)

wrong_bits-take : (n : ℕ) (exp : List Bytes) → wrong_bits exp (take n exp) ≡ 0
wrong_bits-take zero [] = refl
wrong_bits-take zero (e ∷ exp) = refl
wrong_bits-take (suc n) [] = refl
wrong_bits-take (suc n) (e ∷ exp) = omega (arith, bit_errors_of_refl e, wrong_bits-take n exp)

pub take-append : (xs : List Bytes) (y : Bytes) → take (length xs) (xs ++ (y ∷ [])) ≡ xs
take-append [] y = refl
take-append (x ∷ xs) y = ap (λ t. x ∷ t) (take-append xs y)

-- What the echo bitstream does: each transfer answers with the frame of the transfer before.
pub record IsEcho {W : Type 0} (xfer2 : W → Bytes → W × Bytes) (last : W → Bytes) : Type 0 where
  pub answer : (w : W) (f : Bytes) → (xfer2 w f).1 ≡ last w
  pub keep : (w : W) (f : Bytes) → last (xfer2 w f).0 ≡ f

abbrev pub IsFull : Bytes → Type 0
IsFull f = length f ≡ 32

module _ {W : Type 0} (xfer2 : W → Bytes → W × Bytes) (last : W → Bytes)
    (echo : IsEcho xfer2 last) where
  send_all-echo :
      (w : W) (frames : List Bytes) (flush : Bytes)
      → All IsFull frames
      → length flush ≡ 32
      → (w1 : W) × (send_all xfer2 w (frames ++ (flush ∷ [])) ≡ ok (w1, last w ∷ frames))
  unfolding send_all send_frame
  send_all-echo w [] flush full size =
      ((xfer2 w flush).0, ground (arith, size, echo.answer w flush))
  send_all-echo w (f ∷ frames) flush (here, full) size =
      let (w1, e) = send_all-echo (xfer2 w f).0 frames flush full size in
      (w1, ground (arith, here, e, echo.answer w f, echo.keep w f))

  but_last-append : (xs : List Bytes) (y : Bytes) → but_last xfer2 (xs ++ (y ∷ [])) ≡ xs
  but_last-append xs y =
      let count : length (xs ++ (y ∷ [])) - 1 ≡ length xs = omega (arith, length-append_one xs y) in
      rw count (take-append xs y)

  but_last-cons :
      (x y : Bytes) (ys : List Bytes) → but_last xfer2 (x ∷ y ∷ ys) ≡ x ∷ take (length ys) (y ∷ ys)
  but_last-cons x y ys =
      let count : suc (suc (length ys)) - 1 ≡ suc (length ys) = omega arith in rw count

  clean_ramp :
      (w : W) (f : Bytes) (frames : List Bytes)
      → length f ≡ 32
      → ramp_errors (f ∷ frames) (but_last xfer2 (last w ∷ f ∷ frames)) 1
        ≡ ok (record {
          frames_compared = length frames;
          frame_errors = 0;
          bit_errors = 0;
          frame_bits = 256;
        })
  clean_ramp w f frames size =
      let got = take (length frames) (f ∷ frames) in
      let many : length got ≡ length frames =
        omega (arith, length-take (length frames) (f ∷ frames)) in
      rw (but_last-cons (last w) f frames) (
        ramp_errors_lem (f ∷ frames) (last w ∷ []) got (omega (arith, many))
        ∙ ground (
          arith,
          many,
          size,
          wrong_frames-take (length frames) (f ∷ frames),
          wrong_bits-take (length frames) (f ∷ frames),
        ))

  -- A clean link measures as clean: on an echo, a ramp of any frames of 32 bytes returns, compares
  -- all of them but one, and finds no error.
  pub run_one-echo :
      (w : W) (f : Bytes) (frames : List Bytes)
      → All IsFull (f ∷ frames)
      → (w1 : W) × (run_one xfer2 w (f ∷ frames)
          ≡ ok (
            w1,
            record {
              frames_compared = length frames;
              frame_errors = 0;
              bit_errors = 0;
              frame_bits = 256;
            },
          ))
  unfolding run_one
  run_one-echo w f frames full =
      let (w1, e) = send_all-echo w (f ∷ frames) (zeros 32) full refl in
      (w1, ground (arith, e, but_last-append (f ∷ frames) (zeros 32), clean_ramp w f frames full.0))
