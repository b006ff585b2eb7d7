-- ===== src/Tests/Wires.antt =====
-- Instances for spi_fpga_bringup.py, silicon_telemetry_check.py and packet_capture.py.
use fpga_pi_parallel_nids.Prelude.{
  zero, suc, ◌-◌, ◌+◌, ◌<◌, sym, ap, ℕ, ◌≡◌, refl, List, [], ◌∷◌, ◌++◌, Option, none, some, Result,
  ok, raise, arith, ◌==◌, if◌then◌else◌,
}
use fpga_pi_parallel_nids.Prelude.Bytes.{Bytes, zeros}
use fpga_pi_parallel_nids.Cms
use fpga_pi_parallel_nids.Cms.{point_query, column}
use fpga_pi_parallel_nids.Cms.Stream.{after}
use fpga_pi_parallel_nids.Telemetry.{encode_query}
use fpga_pi_parallel_nids.Frames.{IpPacket, tcp}
use fpga_pi_parallel_nids.Capture.{Printed, main}
use fpga_pi_parallel_nids.Capture.Rows.{IsLogged, Captured, headers_of, main-Captured}
use fpga_pi_parallel_nids.Silicon.Queries.{telemetry_check}
use fpga_pi_parallel_nids.Silicon.Queries.Counting.{
  IsCounting, source_of, opcode_of, telemetry_check_total,
}
use fpga_pi_parallel_nids.Wiring.{link_verified, bringup}
use fpga_pi_parallel_nids.Wiring.Echoed.{IsPipeline, bringup_total}

-- A register: its state is the frame on its way.
abbrev register : Bytes → Bytes → Bytes × Bytes
register w f = (f, w)

register-IsPipeline : IsPipeline register (λ w. w ∷ [])
register-IsPipeline = record { moves = λ w f. refl }

bringup_total_example :
    (w1 : Bytes) × (bringup register 1 []
      ≡ ok (w1, record { passed = 4; advice = link_verified; exit_code = 0 }))
bringup_total_example = bringup_total register (λ w. w ∷ []) register-IsPipeline 1 [] refl

-- A board that counts, in windows of twenty frames: the sources of the window, the frames that are
-- left of it, and the pending answer.
record Counting : Type 0 where
  seen : List ℕ
  left : ℕ
  pending : Bytes

abbrev reply_of : Result Bytes → Bytes
reply_of (ok r) = r
reply_of (raise e) = zeros 32

abbrev after_frame : ℕ → List ℕ → Bytes → Counting
after_frame left seen f = record {
  seen = (if opcode_of f == 0 then source_of f ∷ seen else seen);
  left = left;
  pending =
      (if opcode_of f == 1
        then reply_of (encode_query (source_of f) (point_query (after Cms.init seen) (source_of f)))
        else zeros 32);
}

-- The frame that comes when none is left begins the next window.
abbrev in_window : ℕ → List ℕ → Bytes → Counting
in_window zero seen f = after_frame 19 [] f
in_window (suc n) seen f = after_frame n seen f

abbrev count_frame : Counting → Bytes → Counting × Bytes
count_frame w f = (in_window w.left w.seen f, w.pending)

one_less : (n : ℕ) (seen : List ℕ) (f : Bytes) → 0 < n → n ≡ (in_window n seen f).left + 1
one_less zero seen f some_left = absurd (omega arith)
one_less (suc n) seen f some_left = omega arith

within :
    (n : ℕ) (seen : List ℕ) (f : Bytes) → 0 < n → in_window n seen f ≡ after_frame (n - 1) seen f
within zero seen f some_left = absurd (omega arith)
within (suc n) seen f some_left =
    let e : suc n - 1 ≡ n = omega arith in ap (λ k. after_frame k seen f) (sym e)

count_frame-IsCounting : IsCounting count_frame (λ w. w.seen) (λ w. w.left) (λ w. w.pending)
count_frame-IsCounting = record {
  answer = λ w f. refl;
  one_less = λ w f some_left. one_less w.left w.seen f some_left;
  packet = λ w f some_left op. rw (within w.left w.seen f some_left, op) refl;
  query_counts_nothing = λ w f some_left op. rw (within w.left w.seen f some_left, op) refl;
  reply = λ w f reply some_left op e. rw (within w.left w.seen f some_left, op, e) refl;
}

-- The wait lets a window begin.
abbrev next_window : Counting → Counting
next_window w = record w { seen = []; left = 20 }

abbrev busy : Counting
busy = record { seen = 7 ∷ []; left = 2; pending = [] }

telemetry_check_total_example :
    (w1 : Counting) × (telemetry_check count_frame next_window busy (5 ∷ 9 ∷ 5 ∷ []) (5 ∷ 6 ∷ [])
      ≡ ok (w1, 0))
unfolding column
telemetry_check_total_example =
    telemetry_check_total count_frame (λ w. w.seen) (λ w. w.left) (λ w. w.pending)
      count_frame-IsCounting next_window busy (5 ∷ 9 ∷ 5 ∷ []) (5 ∷ 6 ∷ []) refl (omega arith)
      (omega arith, (omega arith, (omega arith, tt))) (omega arith, (omega arith, tt))
      (refl, (refl, tt))

-- A device that keeps what it got, and sends it back.
abbrev recorder : List Bytes → Bytes → List Bytes × Bytes
recorder w f = (w ++ (f ∷ []), f)

recorder-IsLogged : IsLogged recorder (λ w. w)
recorder-IsLogged = record { size = λ w f. refl; log = λ w f. refl }

-- Two packets of TCP, of which the second has no address that fits, around one that is not IPv4.
abbrev web : IpPacket
web = record {
  src = 192 ∷ 0 ∷ 2 ∷ 1 ∷ [];
  dst = 198 ∷ 51 ∷ 100 ∷ 1 ∷ [];
  proto = 6;
  transport = tcp 54321 443 24;
  len = 512;
}

abbrev packets : List (Option IpPacket)
packets = some web ∷ none ∷ some (record web { transport = tcp 70000 443 24 }) ∷ some web ∷ []

abbrev hang_up : List Bytes → List Bytes
hang_up w = w ++ ([] ∷ [])

main-Captured_example :
    (w1 : List Bytes) × (printed : Printed) × (main (some recorder) hang_up [] packets
      ≡ (hang_up w1, printed))
    × Captured 0 packets printed.rows printed.ended
    × (w1 ≡ [] ++ headers_of printed.rows)
main-Captured_example = main-Captured recorder (λ w. w) recorder-IsLogged hang_up [] packets
