-- ===== src/TelemetryModel/Snapshots.antt =====
-- telemetry_model.py against telemetry.py: every snapshot that a window latches fits the response
-- frame, over any number of windows.
use fpga_pi_parallel_nids.Prelude.{
  ℕ, ◌+◌, ◌^◌, ◌<◌, ◌≡◌, refl, ◌∙◌, List, [], ◌∷◌, arith, Result, ok, ◌>>=◌, some, All,
}
use fpga_pi_parallel_nids.Prelude.Bits.{bit_and_mask}
use fpga_pi_parallel_nids.Cms
use fpga_pi_parallel_nids.Cms.Cells.{count-le}
use fpga_pi_parallel_nids.Hll
use fpga_pi_parallel_nids.Telemetry.{SnapResponse, encode_snapshot, decode_snapshot}
use fpga_pi_parallel_nids.Telemetry.RoundTrip.{decode_snapshot-encode_snapshot}
use fpga_pi_parallel_nids.TelemetryModel.{Snapshot, Telemetry, init, update, window_tick}

pub record IsValid (t : Telemetry) : Type 0 where
  pub cms : Cms.Cells.IsValid t.cms
  pub hll : Hll.Registers.IsCovered t.hll
  pub window : t.window_index < 2 ^ 16
  pub top_count : t.top1_count < 2 ^ 14
  pub top_key : t.top1_key < 2 ^ 32

-- What can happen to the model: a packet of a source, or the end of a window.
pub data Event : Type 0 where
  packet : ℕ → Event
  tick : Event

unfoldable pub step : Telemetry → Event → Telemetry
step t (packet ip) = update t ip
step t tick = window_tick t

-- The state after the events of a list, the latest first.
unfoldable pub run : List Event → Telemetry
run [] = init
run (e ∷ es) = step (run es) e

abbrev pub IsAddressed : Event → Type 0
IsAddressed (packet ip) = ip < 2 ^ 32
IsAddressed tick = Unit

init-IsValid : IsValid init
init-IsValid = record {
  cms = unfold init in Cms.Cells.init-IsValid;
  hll = unfold init in Hll.Registers.init-IsCovered;
  window = unfold init in omega arith;
  top_count = unfold init in omega arith;
  top_key = unfold init in omega arith;
}

point_query-lt :
    (cm : Cms.CountMin) (ip : ℕ) → Cms.Cells.IsValid cm → Cms.point_query cm ip < 2 ^ 14
unfolding Cms.point_query Cms.min_count
point_query-lt cm ip v = omega (arith, count-le cm 0 (Cms.column ip 0) v)

update-IsValid : (t : Telemetry) (ip : ℕ) → ip < 2 ^ 32 → IsValid t → IsValid (update t ip)
update-IsValid t ip h v = record {
  cms = unfold update in Cms.Cells.update-IsValid t.cms ip v.cms;
  hll = unfold update in Hll.Registers.update-IsCovered t.hll ip v.hll;
  window = unfold update in v.window;
  top_count =
      unfold update in
      ground (
        arith,
        v.top_count,
        point_query-lt (Cms.update t.cms ip) ip (Cms.Cells.update-IsValid t.cms ip v.cms),
      );
  top_key = unfold update in ground (arith, v.top_key);
}

window_tick-IsValid : (t : Telemetry) → IsValid t → IsValid (window_tick t)
window_tick-IsValid t v = record {
  cms = unfold window_tick in Cms.Windows.window_tick-IsValid t.cms v.cms;
  hll = unfold window_tick in Hll.Registers.window_tick-IsCovered t.hll v.hll;
  window = unfold window_tick in omega (arith, bit_and_mask 16 (t.window_index + 1));
  top_count = unfold window_tick in omega arith;
  top_key = unfold window_tick in omega arith;
}

pub run-IsValid : (es : List Event) → All IsAddressed es → IsValid (run es)
unfolding run step
run-IsValid [] h = init-IsValid
run-IsValid (packet ip ∷ es) h = update-IsValid (run es) ip h.0 (run-IsValid es h.1)
run-IsValid (tick ∷ es) h = window_tick-IsValid (run es) (run-IsValid es h.1)

-- A snapshot on the wire: built into a response frame, and decoded.
abbrev pub published : Snapshot → Result SnapResponse
published s =
    encode_snapshot s.window_index s.total_packets s.harmonic_sum s.zeros s.top1_count s.top1_key
    >>= decode_snapshot

abbrev pub response : Snapshot → SnapResponse
response s = record {
  window = s.window_index;
  total = s.total_packets;
  harmonic_sum = s.harmonic_sum;
  zeros = s.zeros;
  top1_count = s.top1_count;
  top1_key = s.top1_key;
}

-- After any packets of 32-bit sources and any number of windows, also past the wrap-around of the
-- epochs, the next tick latches a snapshot with the packet counter of the window, which fits its
-- frame and is decoded unchanged, provided fewer than 2 ** 32 packets came in the window.
pub run-decode_snapshot :
    (es : List Event)
    → All IsAddressed es
    → (run es).total_packets < 2 ^ 32
    → (s : Snapshot) × ((step (run es) tick).snapshot ≡ some s)
      × (s.total_packets ≡ (run es).total_packets)
      × (published s ≡ ok (response s))
unfolding step window_tick
run-decode_snapshot es h small = (
  record {
    window_index = (run es).window_index;
    total_packets = (run es).total_packets;
    harmonic_sum = (run es).hll.harmonic_sum;
    zeros = (run es).hll.zeros;
    top1_count = (run es).top1_count;
    top1_key = (run es).top1_key;
  },
  refl,
  refl,
  decode_snapshot-encode_snapshot _ _ _ _ _ _
      ∙ ground (arith, v.window, v.top_count, v.top_key, v.hll.sum_bound, v.hll.zeros_bound),
)
  where
    v : IsValid (run es)
    v = run-IsValid es h
