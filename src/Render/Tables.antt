-- ===== src/Render/Tables.antt =====
-- lib/MicronRender/src/MicronRender.cpp: `onTableBegin` and `onTableRow`, the collection of a table
-- in its buffer. A row is split into cells; the markup of a cell is stripped.
use thicket_firmware.Base.{
  ℕ, zero, suc, ◌+◌, ◌-◌, ◌*◌, Bool, true, false, not, ◌&&◌, ◌||◌, ltb, leb, ◌==◌, if◌then◌else◌,
  u8, u16, set, get_or, replicate,
}
use thicket_firmware.Base.Memory.{Memory, store}
use thicket_firmware.Render.State.{
  Align, Style, TableState, PageRenderer, table_max_rows, table_max_cols, table_max_bytes,
}
use thicket_firmware.Render.Page.{cells}
use thicket_firmware.Render.Run.{is_space, from, skip_spaces}

unfoldable pub on_table_begin : Bool → Align → Style → PageRenderer → PageRenderer
on_table_begin align_set align s p = record p {
  depth = s.depth;
  table = record p.table {
    in_table = true;
    table_row = 0;
    table_cols = 0;
    t_rows = 0;
    tlen = 0;
    table_overflowed = false;
    table_align = if align_set then align else Align.left;
    col_w = replicate table_max_cols 0;
  };
}

unfoldable pub is_edge : ℕ → Bool
is_edge c = c == 0x7C || is_space c

-- The loops that trim a row, by the rounds left.
unfoldable pub trim_front : ℕ → Memory → ℕ → ℕ → ℕ
trim_front zero row a b = a
trim_front (suc left) row a b =
    let rest = trim_front left row (a + 1) b in if ltb a b && is_edge (row a) then rest else a

unfoldable pub trim_back : ℕ → Memory → ℕ → ℕ → ℕ
trim_back zero row a b = b
trim_back (suc left) row a b =
    let rest = trim_back left row a (b - 1) in if ltb a b && is_edge (row (b - 1)) then rest else b

-- The loop that trims the spaces behind a cell.
unfoldable pub trim_cell : ℕ → Memory → ℕ → ℕ → ℕ
trim_cell zero row cs ce = ce
trim_cell (suc left) row cs ce =
    let rest = trim_cell left row cs (ce - 1) in
    if ltb cs ce && is_space (row (ce - 1)) then rest else ce

-- Whether the bytes from `i` to `b` are those of a separator row.
unfoldable pub only_rule : ℕ → Memory → ℕ → ℕ → Bool
only_rule zero row i b = true
only_rule (suc left) row i b =
    let rest = only_rule left row (i + 1) b in
    let ruled = row i == 0x2D || row i == 0x3A || row i == 0x7C || is_space (row i) in
    if ltb i b then ruled && rest else true

-- The end of the cell at `cell`.
unfoldable pub cell_end : ℕ → Memory → ℕ → ℕ → ℕ
cell_end zero row b cell = cell
cell_end (suc left) row b cell =
    let rest = cell_end left row b (cell + 1) in
    if ltb cell b && not (row cell == 0x7C) then rest else cell

-- The variables of the loop that strips a cell: `k` in the row, `n` bytes kept.
pub record Strip : Type 0 where
  pub k : ℕ
  pub n : ℕ
  pub tbuf : Memory
  pub over : Bool

-- One byte kept, or the buffer's end noted.
unfoldable pub keep : ℕ → ℕ → Strip → Strip
keep tlen byte s =
    if ltb (tlen + s.n) table_max_bytes
    then record s { tbuf = store s.tbuf (tlen + s.n) byte; n = s.n + 1 }
    else record s { over = true }

-- The end of a link's markup, and the start of its target where it has one.
unfoldable pub link_end : ℕ → Memory → ℕ → ℕ → ℕ → ℕ × ℕ
link_end zero row ce e bar = (e, bar)
link_end (suc left) row ce e bar =
    let rest = link_end left row ce (e + 1) (if row e == 0x60 && bar == ce then e else bar) in
    if ltb e ce && not (row e == 0x5D) then rest else (e, bar)

-- The label of a link, from `q` to `stop`.
unfoldable pub keep_label : ℕ → Memory → ℕ → ℕ → ℕ → Strip → Strip
keep_label zero row tlen stop q s = s
keep_label (suc left) row tlen stop q s =
    let rest = keep_label left row tlen stop (q + 1) (keep tlen (row q) s) in
    if ltb q stop && ltb s.n 255
    then (if ltb (tlen + s.n) table_max_bytes then rest else keep tlen (row q) s)
    else s

unfoldable pub strip_link : Memory → ℕ → ℕ → Strip → Strip
strip_link row tlen ce s =
    let (e, bar) = link_end (ce - (s.k + 2)) row ce (s.k + 2) ce in
    let stop = if ltb bar ce then bar else e in
    let kept = keep_label (stop - (s.k + 2)) row tlen stop (s.k + 2) s in
    record kept { k = if ltb e ce then e + 1 else ce }

-- A command of the markup, at its backtick.
unfoldable pub strip_command : Memory → ℕ → ℕ → Strip → Strip
strip_command row tlen ce s =
    let cmd = row (s.k + 1) in
    let colour = cmd == 0x46 || cmd == 0x42 in
    let long = ltb (s.k + 2) ce && row (s.k + 2) == 0x54 in
    let skip = if colour then (if long then 9 else 5) else 2 in
    if not colour && cmd == 0x5B
    then strip_link row tlen ce s
    else record s { k = if leb (s.k + skip) ce then s.k + skip else ce }

unfoldable pub is_command : Memory → ℕ → ℕ → Bool
is_command row ce k = row k == 0x60 && ltb (k + 1) ce

unfoldable pub strip_step : Memory → ℕ → ℕ → Strip → Strip
strip_step row tlen ce s =
    if is_command row ce s.k
    then strip_command row tlen ce s
    else record (keep tlen (row s.k) s) { k = s.k + 1 }

-- The loop over the bytes of a cell; a byte that the buffer has no room for ends it.
unfoldable pub strip_loop : ℕ → Memory → ℕ → ℕ → Strip → Strip
strip_loop zero row tlen ce s = s
strip_loop (suc left) row tlen ce s =
    let rest = strip_loop left row tlen ce (strip_step row tlen ce s) in
    if ltb s.k ce && ltb s.n 255
    then (if is_command row ce s.k || ltb (tlen + s.n) table_max_bytes
        then rest
        else keep tlen (row s.k) s)
    else s

abbrev pub cell_index : ℕ → ℕ → ℕ
cell_index r col = r * table_max_cols + col

-- The bytes from `i` to `cell`, trimmed and stripped, as the cell of column `col`.
unfoldable pub add_cell : Memory → ℕ → ℕ → ℕ → ℕ → TableState → TableState
add_cell row r col i cell t =
    let cs = skip_spaces (cell - i) row cell i in
    let ce = trim_cell (cell - cs) row cs cell in
    let s =
      strip_loop (ce - cs) row t.tlen ce
        (record { k = cs; n = 0; tbuf = t.tbuf; over = t.table_overflowed }) in
    let w = u8 (cells (from s.tbuf t.tlen) s.n) in
    record t {
      tbuf = s.tbuf;
      table_overflowed = s.over;
      cell_off = set t.cell_off (cell_index r col) t.tlen;
      cell_len = set t.cell_len (cell_index r col) (u8 s.n);
      tlen = u16 (t.tlen + s.n);
      col_w = if ltb 0 s.n && ltb (get_or t.col_w col 0) w then set t.col_w col w else t.col_w;
    }

-- The columns that are left of the six, from `i` on: the table, and the columns of this row.
unfoldable pub row_loop : ℕ → Memory → ℕ → ℕ → ℕ → ℕ → TableState → ℕ × TableState
row_loop zero row b r col i t = (col, t)
row_loop (suc left) row b r col i t =
    let cell = cell_end (b - i) row b i in
    let rest = row_loop left row b r (col + 1) (cell + 1) (add_cell row r col i cell t) in
    if leb i b then rest else (col, t)

-- The cells of a row, by the columns left, with nothing in them.
unfoldable pub clear_cells : ℕ → ℕ → ℕ → TableState → TableState
clear_cells zero r k t = t
clear_cells (suc left) r k t = clear_cells left r (k + 1) (record t {
  cell_off = set t.cell_off (cell_index r k) 0;
  cell_len = set t.cell_len (cell_index r k) 0;
})

-- A row that is not a separator, trimmed to `a` and `b`.
unfoldable pub collect_row : Memory → ℕ → ℕ → TableState → TableState
collect_row row a b t =
    let r = t.t_rows in
    let (col, t') = row_loop table_max_cols row b r 0 a (clear_cells table_max_cols r 0 t) in
    let widened = record t' { table_cols = if ltb t'.table_cols col then col else t'.table_cols } in
    if leb table_max_rows t.t_rows
    then record t { table_overflowed = true }
    else record widened { t_rows = widened.t_rows + 1 }

unfoldable pub on_table_row : Memory → ℕ → Style → PageRenderer → PageRenderer
on_table_row row len s p =
    let a = trim_front len row 0 len in
    let b = trim_back len row a len in
    let begun = record p { depth = s.depth } in
    let separator = ltb a b && only_rule (b - a) row a b in
    if separator then begun else record begun { table = collect_row row a b begun.table }
