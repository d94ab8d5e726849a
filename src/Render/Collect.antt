-- ===== src/Render/Collect.antt =====
-- The rows of a table: each keeps the buffer's bounds.
use thicket_firmware.Base.{
  ℕ, zero, suc, ◌+◌, ◌-◌, ◌*◌, ◌≤◌, ◌<◌, ◌≡◌, ◌⊎◌, refl, sym, ◌∙◌, arith, Bool, true, ◌&&◌, ltb,
  leb, if◌then◌else◌, Bool-cases, inl, inr,
}
use thicket_firmware.Base.Memory.{Memory}
use thicket_firmware.Render.State.{Style, TableState, PageRenderer}
use thicket_firmware.Render.Tables.{
  cell_index, add_cell, row_loop, clear_cells, collect_row, on_table_row, trim_front, trim_back,
  only_rule, cell_end,
}
use thicket_firmware.Render.Buffer.{
  Keeps, Placed, IsFilled, clear_cells-IsFilled, clear_cells-keeps, add_cell-IsFilled,
}

-- A table whose arrays have their sizes, whose rows and columns are within them, and all of whose
-- cells lie in the bytes of the buffer that are in use.
pub record IsTable (t : TableState) : Type 0 where
  pub filled : IsFilled (t.t_rows * 6) t
  pub rows : t.t_rows ≤ 16
  pub cols : t.table_cols ≤ 6

Keeps-trans : (a b : ℕ) (x y z : Memory) → a ≤ b → Keeps a x y → Keeps b y z → Keeps a x z
unfolding Keeps
Keeps-trans a b x y z h first second =
    λ j k. second j (elim k [ inl below ↦ inl (omega arith) | inr above ↦ inr above ]) ∙ first j k

Keeps-from : (a b : ℕ) (x y z : Memory) → a ≡ b → x ≡ y → Keeps a x z → Keeps b y z
Keeps-from a b x y z h e kept = rw (sym h, sym e) kept

-- What one cell or more of a row keep.
abbrev Goes : ℕ → TableState → TableState → Type 0
Goes bound t q =
    IsFilled bound q
    × Keeps t.tlen t.tbuf q.tbuf
    × (t.tlen ≤ q.tlen)
    × (q.t_rows ≡ t.t_rows)
    × (q.table_cols ≡ t.table_cols)

row_loop-IsFilled :
    (left : ℕ) (row : Memory) (b r col i bound : ℕ) (t : TableState)
    → r < 16
    → col + left ≤ 6
    → IsFilled bound t
    → let (cols, q) = row_loop left row b r col i t in Goes bound t q × (cols ≤ col + left)
unfolding row_loop
row_loop-IsFilled zero row b r col i bound t low few ok =
    ((ok, unfold Keeps in λ j _. refl, omega arith, refl, refl), omega arith)
row_loop-IsFilled (suc left) row b r col i bound t low few ok = elim (Bool-cases (leb i b)) [
  | inr ended ↦ rw ended ((ok, unfold Keeps in λ j _. refl, omega arith, refl, refl), omega arith)
  | inl more ↦
      let cell = cell_end (b - i) row b i in
      let q = add_cell row r col i cell t in
      let (filled, kept, longer, rows, cols) =
        add_cell-IsFilled row r col i cell bound t (omega arith) ok in
      let ((filled', kept', longer', rows', cols'), few') =
        row_loop-IsFilled left row b r (col + 1) (cell + 1) bound q low (omega arith) filled in
      rw more (
        (
          filled',
          Keeps-trans t.tlen q.tlen t.tbuf q.tbuf _ longer kept kept',
          omega (arith, longer, longer'),
          rows' ∙ rows,
          cols' ∙ cols,
        ),
        omega (arith, few'),
      )
]

-- Other counts over the same cells.
recount-IsFilled :
    (bound rows cols : ℕ) (over : Bool) (t : TableState)
    → IsFilled bound t
    → IsFilled bound (record t { t_rows = rows; table_cols = cols; table_overflowed = over })
unfolding Placed
recount-IsFilled bound rows cols over t ok = record {
  widths = ok.widths;
  offs = ok.offs;
  lens = ok.lens;
  full = ok.full;
  placed = ok.placed;
}

pub collect_row-IsTable :
    (row : Memory) (a b : ℕ) (t : TableState)
    → IsTable t
    → let q = collect_row row a b t in IsTable q × Keeps t.tlen t.tbuf q.tbuf × (t.tlen ≤ q.tlen)
unfolding collect_row
collect_row-IsTable row a b t ok = elim (Bool-cases (leb 16 t.t_rows)) [
  | inl full ↦
      let same : IsTable (record t { table_overflowed = true }) = record {
        filled = recount-IsFilled (t.t_rows * 6) t.t_rows t.table_cols true t ok.filled;
        rows = ok.rows;
        cols = ok.cols;
      } in
      rw full (same, unfold Keeps in λ j _. refl, omega arith)
  | inr room ↦
      let r = t.t_rows in
      let low : r < 16 = ground (arith, room) in
      let c = clear_cells 6 r 0 t in
      let (buf, len, rows, cols) = clear_cells-keeps 6 r 0 t in
      let start : IsFilled (cell_index r 0) t =
        (let same : cell_index r 0 ≡ r * 6 = omega arith in rw same ok.filled) in
      let clean = clear_cells-IsFilled 6 r 0 t (omega arith) start in
      let ((filled, kept, longer, rows', cols'), few) =
        row_loop-IsFilled 6 row b r 0 a (cell_index r 0 + 6) c low (omega arith) clean in
      let (col, q) = row_loop 6 row b r 0 a c in
      let wide = if ltb q.table_cols col then col else q.table_cols in
      let bound : cell_index r 0 + 6 ≡ (q.t_rows + 1) * 6 = omega (arith, rows', rows) in
      let table : IsTable (record q { table_cols = wide; t_rows = q.t_rows + 1 }) = record {
        filled =
            recount-IsFilled _ (q.t_rows + 1) wide q.table_overflowed q (rw (sym bound) filled);
        rows = omega (arith, rows', rows);
        cols = ground (arith, few, cols', cols, ok.cols);
      } in
      rw room (
        table,
        Keeps-from c.tlen t.tlen c.tbuf t.tbuf q.tbuf len buf kept,
        omega (arith, longer, len),
      )
]

-- Whatever the bytes and the length of a row are, it keeps the table in its bounds: 16 rows, six
-- columns, 1024 bytes, and every cell of the table's rows inside the bytes in use. It writes no byte
-- of the buffer from the 1024th on and none that was in use, and never uses fewer bytes than before.
pub on_table_row-IsTable :
    (row : Memory) (len : ℕ) (s : Style) (p : PageRenderer)
    → IsTable p.table
    → let t = (on_table_row row len s p).table in
      IsTable t
      × ((j : ℕ) → (j < p.table.tlen) ⊎ (1024 ≤ j) → t.tbuf j ≡ p.table.tbuf j)
      × (p.table.tlen ≤ t.tlen)
unfolding on_table_row Keeps
on_table_row-IsTable row len s p ok =
    let a = trim_front len row 0 len in
    let b = trim_back len row a len in
    elim (Bool-cases (ltb a b && only_rule (b - a) row a b)) [
      | inl separator ↦ rw separator (ok, λ j _. refl, omega arith)
      | inr cells ↦ rw cells (collect_row-IsTable row a b p.table ok)
    ]
