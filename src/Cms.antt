-- ===== src/Cms.antt =====
-- cms.py: the Count-Min sketch of packets for each source address, with lazily reset cells.
pub mod Cells
pub mod Stream
pub mod Windows
use fpga_pi_parallel_nids.Prelude.{
  ℕ, zero, suc, ◌+◌, ◌-◌, ◌*◌, ◌/◌, ◌^◌, min, bit_and, List, [], ◌∷◌, ◌==◌, if◌then◌else◌, get_or,
  set, replicate,
}

abbrev pub mask32 : ℕ
mask32 = 0xFFFFFFFF

abbrev pub cms_a : List ℕ
cms_a = 0x9E3779B1 ∷ 0x85EBCA77 ∷ 0xC2B2AE3D ∷ 0x27D4EB2F ∷ 0x165667B1 ∷ []

abbrev pub cms_cols : ℕ
cms_cols = 4096

abbrev pub cms_rows : ℕ
cms_rows = 5

abbrev pub cms_cw : ℕ
cms_cw = 14

abbrev pub cms_max : ℕ
cms_max = 1 * 2 ^ cms_cw - 1

-- The pair (epoch, count).
pub record Cell : Type 0 where
  pub epoch : ℕ
  pub count : ℕ

abbrev pub blank : Cell
blank = record { epoch = 0; count = 0 }

pub record CountMin : Type 0 where
  pub epoch : ℕ
  pub cell : List (List Cell)

unfoldable pub init : CountMin
init = record { epoch = 0; cell = replicate cms_rows (replicate cms_cols blank) }

unfoldable pub column : ℕ → ℕ → ℕ
column ip j = bit_and (ip * get_or cms_a j 0) mask32 / 2 ^ 20

abbrev pub cell_at : CountMin → ℕ → ℕ → Cell
cell_at cm j c = get_or (get_or cm.cell j []) c blank

-- Row and column are in range at every call: `j` is below 5 and `c` a hash (`column-lt`).
unfoldable pub count : CountMin → ℕ → ℕ → ℕ
count cm j c = if (cell_at cm j c).epoch == cm.epoch then (cell_at cm j c).count else 0

-- The body of the loop of `update`, on row `j`.
unfoldable pub update_row : CountMin → ℕ → ℕ → CountMin
update_row cm ip j =
    let c = column ip j in
    let v = count cm j c in
    record cm {
      cell =
          set cm.cell j (
            set (get_or cm.cell j []) c (record { epoch = cm.epoch; count = min (v + 1) cms_max }));
    }

-- The loop over the rows `j` to `j + n - 1`.
unfoldable pub update_rows : CountMin → ℕ → ℕ → ℕ → CountMin
update_rows cm ip zero j = cm
update_rows cm ip (suc n) j = update_rows (update_row cm ip j) ip n (j + 1)

unfoldable pub update : CountMin → ℕ → CountMin
update cm ip = update_rows cm ip cms_rows 0

-- The least count of the rows `j` to `j + n`.
unfoldable pub min_count : CountMin → ℕ → ℕ → ℕ → ℕ
min_count cm ip zero j = count cm j (column ip j)
min_count cm ip (suc n) j = min (count cm j (column ip j)) (min_count cm ip n (j + 1))

unfoldable pub point_query : CountMin → ℕ → ℕ
point_query cm ip = min_count cm ip (cms_rows - 1) 0

unfoldable pub window_tick : CountMin → CountMin
window_tick cm = record cm { epoch = bit_and (cm.epoch + 1) 0xF }
