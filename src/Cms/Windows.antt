-- ===== src/Cms/Windows.antt =====
-- cms.py: the lazy reset at the end of a window, and the wrap-around of the 4-bit epoch.
use fpga_pi_parallel_nids.Prelude.{ℕ, zero, suc, ◌+◌, ◌%◌, ◌<◌, ◌≡◌, arith, ◌==◌, if◌then◌else◌}
use fpga_pi_parallel_nids.Prelude.Bits.{bit_and_mask}
use fpga_pi_parallel_nids.Cms.Cells.{IsUnwrapped, IsValid}
use fpga_pi_parallel_nids.Cms.{CountMin, column, count, min_count, point_query, window_tick}

-- `n` windows without a packet.
unfoldable pub ticks : ℕ → CountMin → CountMin
ticks zero cm = cm
ticks (suc n) cm = ticks n (window_tick cm)

window_tick_lem : (cm : CountMin) → window_tick cm ≡ record cm { epoch = (cm.epoch + 1) % 16 }
unfolding window_tick
window_tick_lem cm = rw (bit_and_mask 4 (cm.epoch + 1))

-- As long as the epoch has not wrapped, a tick clears every count.
pub count-window_tick :
    (cm : CountMin) (j c : ℕ) → IsUnwrapped cm → cm.epoch < 15 → count (window_tick cm) j c ≡ 0
unfolding count window_tick
count-window_tick cm j c u h = ground (arith, u j c, bit_and_mask 4 (cm.epoch + 1))

ticks-epoch :
    (n : ℕ) (cm : CountMin) → cm.epoch < 16 → ticks n cm ≡ record cm { epoch = (cm.epoch + n) % 16 }
unfolding ticks
ticks-epoch zero cm h = ground arith
ticks-epoch (suc n) cm h = ground (arith, ticks-epoch n (window_tick cm), window_tick_lem cm)

count-ticks :
    (n : ℕ) (cm : CountMin) (j c : ℕ)
    → IsUnwrapped cm
    → cm.epoch ≡ 0
    → count (ticks n cm) j c ≡ (if n % 16 == 0 then count cm j c else 0)
unfolding count
count-ticks n cm j c u e = ground (arith, ticks-epoch n cm, u j c)

min_count-ticks :
    (n : ℕ) (cm : CountMin) (ip k j : ℕ)
    → IsUnwrapped cm
    → cm.epoch ≡ 0
    → min_count (ticks n cm) ip k j ≡ (if n % 16 == 0 then min_count cm ip k j else 0)
unfolding min_count
min_count-ticks n cm ip zero j u e = count-ticks n cm j (column ip j) u e
min_count-ticks n cm ip (suc k) j u e =
    ground (arith, count-ticks n cm j (column ip j) u e, min_count-ticks n cm ip k (j + 1) u e)

-- What was counted in the first window reads 0 in the idle windows that follow, but in every
-- sixteenth of them the old estimate is back, since the epoch has four bits.
pub point_query-ticks :
    (n : ℕ) (cm : CountMin) (ip : ℕ)
    → IsUnwrapped cm
    → cm.epoch ≡ 0
    → point_query (ticks n cm) ip ≡ (if n % 16 == 0 then point_query cm ip else 0)
unfolding point_query
point_query-ticks n cm ip u e = min_count-ticks n cm ip 4 0 u e

pub window_tick-IsValid : (cm : CountMin) → IsValid cm → IsValid (window_tick cm)
unfolding window_tick
window_tick-IsValid cm v = record { rows = v.rows; cols = v.cols; bounded = v.bounded }
