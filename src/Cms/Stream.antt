-- ===== src/Cms/Stream.antt =====
-- cms.py: the estimates after a stream of packets within one window.
use fpga_pi_parallel_nids.Prelude.{
  ℕ, zero, suc, ◌+◌, ◌≤◌, ◌<◌, min, ◌≡◌, ap, List, [], ◌∷◌, arith, ◌==◌, if◌then◌else◌, length,
}
use fpga_pi_parallel_nids.Cms.{
  CountMin, column, count, init, update, min_count, point_query, cms_max,
}
use fpga_pi_parallel_nids.Cms.Cells.{
  IsValid, init-IsValid, count-init, count-le, update-IsValid, count-update, IsUnwrapped,
  update-IsUnwrapped,
}

-- The sketch after the packets of a list, the latest first.
unfoldable pub after : CountMin → List ℕ → CountMin
after cm [] = cm
after cm (ip ∷ ips) = update (after cm ips) ip

-- The packets of a source, and those that share its column in row `j`.
abbrev pub packets : List ℕ → ℕ → ℕ
packets [] ip = 0
packets (x ∷ xs) ip = (if x == ip then 1 else 0) + packets xs ip

abbrev pub collisions : List ℕ → ℕ → ℕ → ℕ
collisions [] j c = 0
collisions (x ∷ xs) j c = (if column x j == c then 1 else 0) + collisions xs j c

pub after-IsValid : (cm : CountMin) (ips : List ℕ) → IsValid cm → IsValid (after cm ips)
unfolding after
after-IsValid cm [] v = v
after-IsValid cm (ip ∷ ips) v = update-IsValid (after cm ips) ip (after-IsValid cm ips v)

pub after-IsUnwrapped :
    (cm : CountMin) (ips : List ℕ) → IsValid cm → IsUnwrapped cm → IsUnwrapped (after cm ips)
unfolding after
after-IsUnwrapped cm [] v u = u
after-IsUnwrapped cm (ip ∷ ips) v u =
    update-IsUnwrapped (after cm ips) ip (after-IsValid cm ips v) (after-IsUnwrapped cm ips v u)

count-after :
    (cm : CountMin) (ips : List ℕ) (j c : ℕ)
    → IsValid cm
    → j < 5
    → count (after cm ips) j c ≡ min (count cm j c + collisions ips j c) cms_max
unfolding after
count-after cm [] j c v h = omega (arith, count-le cm j c v)
count-after cm (ip ∷ ips) j c v h = ground (
  arith,
  count-after cm ips j c v h,
  count-update (after cm ips) ip j c (after-IsValid cm ips v) h,
)

-- The least number of colliding packets over the rows `j` to `j + n`.
abbrev pub estimate : List ℕ → ℕ → ℕ → ℕ → ℕ
estimate ips ip zero j = collisions ips j (column ip j)
estimate ips ip (suc n) j = min (collisions ips j (column ip j)) (estimate ips ip n (j + 1))

min_count-after :
    (ips : List ℕ) (ip n j : ℕ)
    → j + n < 5
    → min_count (after init ips) ip n j ≡ min (estimate ips ip n j) cms_max
unfolding min_count
min_count-after ips ip zero j h = omega (
  arith,
  count-after init ips j (column ip j) init-IsValid (omega arith),
  count-init j (column ip j),
)
min_count-after ips ip (suc n) j h = omega (
  arith,
  count-after init ips j (column ip j) init-IsValid (omega arith),
  count-init j (column ip j),
  min_count-after ips ip n (j + 1) (omega arith),
)

-- After any stream on a fresh sketch, a query gives the least number, over the five rows, of
-- packets whose column is the queried address's, cut off at 16383.
pub point_query-after :
    (ips : List ℕ) (ip : ℕ) → point_query (after init ips) ip ≡ min (estimate ips ip 4 0) cms_max
unfolding point_query
point_query-after ips ip = min_count-after ips ip 4 0 (omega arith)

packets-le-collisions : (ips : List ℕ) (ip j : ℕ) → packets ips ip ≤ collisions ips j (column ip j)
packets-le-collisions [] ip j = omega arith
packets-le-collisions (x ∷ xs) ip j =
    ground (arith, packets-le-collisions xs ip j, ap (λ (t : ℕ). column t j) {x = x} {y = ip})

collisions-le-length : (ips : List ℕ) (j c : ℕ) → collisions ips j c ≤ length ips
collisions-le-length [] j c = omega arith
collisions-le-length (x ∷ xs) j c = ground (arith, collisions-le-length xs j c)

packets-le-estimate : (ips : List ℕ) (ip n j : ℕ) → packets ips ip ≤ estimate ips ip n j
packets-le-estimate ips ip zero j = packets-le-collisions ips ip j
packets-le-estimate ips ip (suc n) j =
    omega (arith, packets-le-collisions ips ip j, packets-le-estimate ips ip n (j + 1))

-- The Count-Min guarantee, for a stream into a fresh sketch, before any tick of the window: an
-- estimate is never below the true number of the source's packets (counted up to 16383), and never
-- above the number of all packets of the stream.
pub point_query_bounds :
    (ips : List ℕ) (ip : ℕ)
    → (min (packets ips ip) cms_max ≤ point_query (after init ips) ip)
      × (point_query (after init ips) ip ≤ length ips)
point_query_bounds ips ip = (
  omega (arith, point_query-after ips ip, packets-le-estimate ips ip 4 0),
  omega (arith, point_query-after ips ip, collisions-le-length ips 0 (column ip 0)),
)
