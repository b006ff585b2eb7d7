-- ===== src/Cms/Cells.antt =====
-- cms.py: what one `update` does to the counts of all cells.
use fpga_pi_parallel_nids.Prelude.{
  ℕ, zero, suc, ◌+◌, ◌*◌, ◌≤◌, ◌<◌, min, ◌≡◌, refl, ◌∙◌, ◌&&◌, [], arith, ltb, leb, ◌==◌,
  if◌then◌else◌, length, get_or, set, length-set, get_or-set, length-replicate, get_or-replicate,
  replicate, get_or-replicate_lt,
}
use fpga_pi_parallel_nids.Prelude.Bits.{bit_and_mask}
use fpga_pi_parallel_nids.Cms.{
  CountMin, blank, cell_at, column, count, init, update_row, update_rows, update, cms_max, cms_a,
}

-- Five rows of 4096 cells, an epoch of four bits, and no count above the maximum.
pub record IsValid (cm : CountMin) : Type 0 where
  pub rows : length cm.cell ≡ 5
  pub cols : (j : ℕ) → j < 5 → length (get_or cm.cell j []) ≡ 4096
  pub bounded : (j c : ℕ) → (cell_at cm j c).count ≤ cms_max

pub column-lt : (ip j : ℕ) → column ip j < 4096
unfolding column
column-lt ip j = omega (arith, bit_and_mask 32 (ip * get_or cms_a j 0))

blank_cells : (n m j c : ℕ) → get_or (get_or (replicate n (replicate m blank)) j []) c blank ≡ blank
blank_cells zero m j c = refl
blank_cells (suc n) m zero c = get_or-replicate m c blank
blank_cells (suc n) m (suc j) c = blank_cells n m j c

cell_at-init : (j c : ℕ) → cell_at init j c ≡ blank
unfolding init
cell_at-init j c = blank_cells 5 4096 j c

pub init-IsValid : IsValid init
init-IsValid = record {
  rows = unfold init in refl;
  cols = λ j h. rw (row j h) (length-replicate 4096 blank);
  bounded = λ j c. rw cell_at-init (omega arith);
}
  where
    row : (j : ℕ) → j < 5 → get_or init.cell j [] ≡ replicate 4096 blank
    row j h = unfold init in get_or-replicate_lt 5 j (replicate 4096 blank) [] h

pub count-init : (j c : ℕ) → count init j c ≡ 0
unfolding count
count-init j c = ground (arith, cell_at-init j c)

pub count-le : (cm : CountMin) (j c : ℕ) → IsValid cm → count cm j c ≤ cms_max
unfolding count
count-le cm j c v = ground (arith, v.bounded j c)

count_lem :
    (cm : CountMin) (j c : ℕ)
    → count cm j c ≡ (if (cell_at cm j c).epoch == cm.epoch then (cell_at cm j c).count else 0)
unfolding count
count_lem cm j c = refl

update_row-row :
    (cm : CountMin) (ip j i : ℕ)
    → IsValid cm
    → j < 5
    → get_or (update_row cm ip j).cell i [] ≡ (
        if j == i
        then set
            (get_or cm.cell j [])
            (column ip j)
            (record { epoch = cm.epoch; count = min (count cm j (column ip j) + 1) cms_max })
        else get_or cm.cell i [])
unfolding update_row
update_row-row cm ip j i v h = get_or-set cm.cell j i _ [] (omega (arith, v.rows))

cell_at-update_row :
    (cm : CountMin) (ip j i c : ℕ)
    → IsValid cm
    → j < 5
    → cell_at (update_row cm ip j) i c ≡ (
        if j == i && column ip j == c
        then record { epoch = cm.epoch; count = min (count cm i c + 1) cms_max }
        else cell_at cm i c)
cell_at-update_row cm ip j i c v h = ground (
  arith,
  update_row-row cm ip j i v h,
  get_or-set (get_or cm.cell j []) (column ip j) c
      (record { epoch = cm.epoch; count = min (count cm j (column ip j) + 1) cms_max }) blank,
  v.cols j h,
  column-lt ip j,
)

epoch-update_row : (cm : CountMin) (ip j : ℕ) → (update_row cm ip j).epoch ≡ cm.epoch
unfolding update_row
epoch-update_row cm ip j = refl

count-update_row :
    (cm : CountMin) (ip j i c : ℕ)
    → IsValid cm
    → j < 5
    → count (update_row cm ip j) i c
      ≡ (if j == i && column ip j == c then min (count cm i c + 1) cms_max else count cm i c)
count-update_row cm ip j i c v h = ground (
  arith,
  cell_at-update_row cm ip j i c v h,
  epoch-update_row cm ip j,
  count_lem (update_row cm ip j) i c,
  count_lem cm i c,
)

update_row-IsValid : (cm : CountMin) (ip j : ℕ) → IsValid cm → j < 5 → IsValid (update_row cm ip j)
update_row-IsValid cm ip j v h = record {
  rows = unfold update_row in length-set cm.cell j _ ∙ v.rows;
  cols = λ i hi. ground (
    arith,
    update_row-row cm ip j i v h,
    v.cols i hi,
    length-set (get_or cm.cell j []) (column ip j)
        (record { epoch = cm.epoch; count = min (count cm j (column ip j) + 1) cms_max }),
  );
  bounded = λ i c. ground (arith, cell_at-update_row cm ip j i c v h, v.bounded i c);
}

count-update_rows :
    (cm : CountMin) (ip n start i c : ℕ)
    → IsValid cm
    → start + n ≤ 5
    → count (update_rows cm ip n start) i c ≡ (
        if leb start i && (ltb i (start + n) && column ip i == c)
        then min (count cm i c + 1) cms_max
        else count cm i c)
unfolding update_rows
count-update_rows cm ip zero start i c v h = ground arith
count-update_rows cm ip (suc n) start i c v h = ground (
  arith,
  count-update_row cm ip start i c v,
  count-update_rows (update_row cm ip start) ip n (start + 1) i c
      (update_row-IsValid cm ip start v (omega arith)),
)

update_rows-IsValid :
    (cm : CountMin) (ip n start : ℕ)
    → IsValid cm
    → start + n ≤ 5
    → IsValid (update_rows cm ip n start)
unfolding update_rows
update_rows-IsValid cm ip zero start v h = v
update_rows-IsValid cm ip (suc n) start v h =
    update_rows-IsValid (update_row cm ip start) ip n (start + 1)
      (update_row-IsValid cm ip start v (omega arith)) (omega arith)

epoch-update_rows : (cm : CountMin) (ip n start : ℕ) → (update_rows cm ip n start).epoch ≡ cm.epoch
unfolding update_rows
epoch-update_rows cm ip zero start = refl
epoch-update_rows cm ip (suc n) start =
    epoch-update_rows (update_row cm ip start) ip n (start + 1) ∙ epoch-update_row cm ip start

pub update-IsValid : (cm : CountMin) (ip : ℕ) → IsValid cm → IsValid (update cm ip)
unfolding update
update-IsValid cm ip v = update_rows-IsValid cm ip 5 0 v (omega arith)

pub epoch-update : (cm : CountMin) (ip : ℕ) → (update cm ip).epoch ≡ cm.epoch
unfolding update
epoch-update cm ip = epoch-update_rows cm ip 5 0

-- An update adds one, up to the maximum, to the address's column of each row, and leaves the
-- count of every other cell.
pub count-update :
    (cm : CountMin) (ip j c : ℕ)
    → IsValid cm
    → j < 5
    → count (update cm ip) j c
      ≡ (if column ip j == c then min (count cm j c + 1) cms_max else count cm j c)
unfolding update
count-update cm ip j c v h = ground (arith, count-update_rows cm ip 5 0 j c v)

-- No cell carries an epoch later than the sketch's: so it is until the epoch first wraps.
abbrev pub IsUnwrapped : CountMin → Type 0
IsUnwrapped cm = (j c : ℕ) → (cell_at cm j c).epoch ≤ cm.epoch

pub init-IsUnwrapped : IsUnwrapped init
init-IsUnwrapped j c = rw cell_at-init (omega arith)

update_rows-IsUnwrapped :
    (cm : CountMin) (ip n start : ℕ)
    → IsValid cm
    → start + n ≤ 5
    → IsUnwrapped cm
    → IsUnwrapped (update_rows cm ip n start)
unfolding update_rows
update_rows-IsUnwrapped cm ip zero start v h u = u
update_rows-IsUnwrapped cm ip (suc n) start v h u =
    update_rows-IsUnwrapped (update_row cm ip start) ip n (start + 1)
      (update_row-IsValid cm ip start v (omega arith)) (omega arith)
      (λ j c.
        ground (arith, cell_at-update_row cm ip start j c v, epoch-update_row cm ip start, u j c))

pub update-IsUnwrapped :
    (cm : CountMin) (ip : ℕ) → IsValid cm → IsUnwrapped cm → IsUnwrapped (update cm ip)
unfolding update
update-IsUnwrapped cm ip v u = update_rows-IsUnwrapped cm ip 5 0 v (omega arith) u
