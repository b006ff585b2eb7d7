-- ===== src/TelemetryModel/Window.antt =====
-- telemetry_model.py: the counters of the first window after a reset.
use fpga_pi_parallel_nids.Prelude.{
  ℕ, zero, suc, ◌+◌, ◌≤◌, ◌<◌, min, ◌≡◌, refl, ap, List, [], ◌∷◌, arith, ltb, if◌then◌else◌, length,
}
use fpga_pi_parallel_nids.Cms
use fpga_pi_parallel_nids.Cms.{cms_max}
use fpga_pi_parallel_nids.Cms.Cells.{update-IsValid, count-update, column-lt}
use fpga_pi_parallel_nids.Cms.Stream.{packets, after-IsValid, point_query_bounds}
use fpga_pi_parallel_nids.TelemetryModel.{Telemetry, init, update, point_query}

-- The state after the packets of a list, the latest first.
unfoldable pub after : List ℕ → Telemetry
after [] = init
after (ip ∷ ips) = update (after ips) ip

pub cms-after : (ips : List ℕ) → (after ips).cms ≡ Cms.Stream.after Cms.init ips
unfolding after Cms.Stream.after
cms-after [] = unfold init in refl
cms-after (ip ∷ ips) = cms_step (after ips) (cms-after ips)
  where
    cms_step :
        (t : Telemetry)
        → t.cms ≡ Cms.Stream.after Cms.init ips
        → (update t ip).cms ≡ Cms.update (Cms.Stream.after Cms.init ips) ip
    cms_step t e = unfold update in ap (λ cm. Cms.update cm ip) e

total-after : (ips : List ℕ) → (after ips).total_packets ≡ length ips
unfolding after
total-after [] = unfold init in refl
total-after (ip ∷ ips) = total_step (after ips) (total-after ips)
  where
    total_step :
        (t : Telemetry)
        → t.total_packets ≡ length ips
        → (update t ip).total_packets ≡ suc (length ips)
    total_step t e = unfold update in omega arith

-- An estimate never falls within a window.
min_count_mono :
    (cm : Cms.CountMin) (x ip n j : ℕ)
    → Cms.Cells.IsValid cm
    → j + n < 5
    → Cms.min_count cm ip n j ≤ Cms.min_count (Cms.update cm x) ip n j
unfolding Cms.min_count
min_count_mono cm x ip zero j v h = ground (
  arith,
  count-update cm x j (Cms.column ip j) v (omega arith),
  Cms.Cells.count-le cm j (Cms.column ip j) v,
)
min_count_mono cm x ip (suc n) j v h = ground (
  arith,
  count-update cm x j (Cms.column ip j) v (omega arith),
  Cms.Cells.count-le cm j (Cms.column ip j) v,
  min_count_mono cm x ip n (j + 1) v (omega arith),
)

point_query_mono :
    (cm : Cms.CountMin) (x ip : ℕ)
    → Cms.Cells.IsValid cm
    → Cms.point_query cm ip ≤ Cms.point_query (Cms.update cm x) ip
unfolding Cms.point_query
point_query_mono cm x ip v = min_count_mono cm x ip 4 0 v (omega arith)

-- The top talker after one packet.
top_step :
    (t : Telemetry) (x : ℕ)
    → ((update t x).top1_count ≡ (
        if ltb t.top1_count (point_query (update t x) x)
        then point_query (update t x) x
        else t.top1_count))
      × ((update t x).top1_key
          ≡ (if ltb t.top1_count (point_query (update t x) x) then x else t.top1_key))
unfolding update point_query
top_step t x = (refl, refl)

query_bounds :
    (ips : List ℕ) (q : ℕ)
    → (min (packets ips q) cms_max ≤ point_query (after ips) q)
      × (point_query (after ips) q ≤ length ips)
unfolding point_query
query_bounds ips q = rw (cms-after ips) (point_query_bounds ips q)

query_mono : (ips : List ℕ) (x q : ℕ) → point_query (after ips) q ≤ point_query (after (x ∷ ips)) q
unfolding point_query
query_mono ips x q =
    rw (cms-after ips, cms-after (x ∷ ips))
      (unfold Cms.Stream.after in
        point_query_mono _ x q (after-IsValid Cms.init ips Cms.Cells.init-IsValid))

after_cons : (ips : List ℕ) (x : ℕ) → after (x ∷ ips) ≡ update (after ips) x
unfolding after
after_cons ips x = refl

top_covers : (ips : List ℕ) (q : ℕ) → min (packets ips q) cms_max ≤ (after ips).top1_count
top_covers [] q = omega arith
top_covers (x ∷ ips) q =
    ground
      (arith, after_cons ips x, top_covers ips q, top_step (after ips) x, query_bounds (x ∷ ips) q)

top_estimated :
    (ips : List ℕ) → (after ips).top1_count ≤ point_query (after ips) (after ips).top1_key
top_estimated [] = unfold after init in omega arith
top_estimated (x ∷ ips) = ground (
  arith,
  after_cons ips x,
  top_estimated ips,
  top_step (after ips) x,
  query_mono ips x (after ips).top1_key,
)

-- In the first window after a reset, after any packets: the packet counter is their number, the
-- count of the top talker is at least the true number of packets of every source (up to 16383), and
-- it is at most the estimate of the reported key and at most the number of all packets.
pub top1_bounds :
    (ips : List ℕ)
    → ((after ips).total_packets ≡ length ips)
      × ((q : ℕ) → min (packets ips q) cms_max ≤ (after ips).top1_count)
      × ((after ips).top1_count ≤ point_query (after ips) (after ips).top1_key)
      × ((after ips).top1_count ≤ length ips)
top1_bounds ips = (
  total-after ips,
  top_covers ips,
  top_estimated ips,
  omega (arith, top_estimated ips, query_bounds ips (after ips).top1_key),
)
