-- ===== src/Render/Flush.antt =====
-- lib/MicronRender/src/MicronRender.cpp: `table_flush` and `onTableEnd`, the layout of a collected
-- table. Each loop over the columns is by the columns left.
use thicket_firmware.Base.{
  ℕ, zero, suc, ◌+◌, ◌-◌, ◌*◌, ◌/◌, ◌^◌, Bool, true, false, not, ◌&&◌, ◌||◌, List, [], ◌∷◌, ltb,
  leb, ◌==◌, if◌then◌else◌, u8, u16, set, get_or,
}
use thicket_firmware.Base.Memory.{Memory}
use thicket_firmware.Lcd.Text.{Fonts}
use thicket_firmware.Render.State.{Call, Style, TableState, PageRenderer}
use thicket_firmware.Render.Page.{
  font_advance, right_edge, seq_len, line_h, left_edge, row_visible, screen_y,
}
use thicket_firmware.Render.Faces.{draw}
use thicket_firmware.Render.Run.{from, emit_run}
use thicket_firmware.Render.Events.{para_gap}
use thicket_firmware.Render.Tables.{cell_index}

abbrev pub gap : ℕ
gap = 1

-- No column is wider than the cap.
unfoldable pub cap_columns : ℕ → ℕ → ℕ → List ℕ → List ℕ
cap_columns zero c cap ws = ws
cap_columns (suc left) c cap ws =
    cap_columns left (c + 1) cap (if ltb cap (get_or ws c 0) then set ws c cap else ws)

-- The widths from column `c` on, each with `extra` more, added to `total`.
unfoldable pub add_columns : ℕ → ℕ → ℕ → List ℕ → ℕ → ℕ
add_columns zero c extra ws total = total
add_columns (suc left) c extra ws total =
    add_columns left (c + 1) extra ws (u16 (total + get_or ws c 0 + extra))

-- A width scaled to the room, two cells or more.
unfoldable pub scaled_width : ℕ → ℕ → ℕ → ℕ
scaled_width room sum w = let scaled = u16 (w * room / sum) in if ltb scaled 2 then 2 else scaled

unfoldable pub scale_columns : ℕ → ℕ → ℕ → ℕ → List ℕ → ℕ → List ℕ × ℕ
scale_columns zero c room sum ws used = (ws, used)
scale_columns (suc left) c room sum ws used =
    let w = scaled_width room sum (get_or ws c 0) in
    scale_columns left (c + 1) room sum (set ws c (u8 w)) (u16 (used + w))

unfoldable pub widest_from : ℕ → ℕ → List ℕ → ℕ → ℕ
widest_from zero c ws widest = widest
widest_from (suc left) c ws widest =
    widest_from left (c + 1) ws (if ltb (get_or ws widest 0) (get_or ws c 0) then c else widest)

-- The widths that fit `avail` cells, and whether there is anything to lay out.
unfoldable pub fit_columns : ℕ → ℕ → List ℕ → List ℕ × Bool
fit_columns avail cols ws =
    let capped = cap_columns cols 0 (avail / 2) ws in
    let room = u16 (avail + 2 ^ 16 - cols * gap) in
    let sum = add_columns cols 0 0 capped 0 in
    let (scaled, used) = scale_columns cols 0 room sum capped 0 in
    let widest = widest_from (cols - 1) 1 scaled 0 in
    let spread = set scaled widest (u8 (get_or scaled widest 0 + (room - used))) in
    if ltb avail (add_columns cols 0 gap capped 0)
    then (if sum == 0
        then (capped, false)
        else (if ltb used room then (spread, true) else (scaled, true)))
    else (capped, true)

-- `while (e < n && taken < width)`, by the rounds left.
unfoldable pub take_cells : ℕ → Memory → ℕ → ℕ → ℕ → ℕ
take_cells zero t n left_over e = e
take_cells (suc left) t n zero e = e
take_cells (suc left) t n (suc width) e =
    let rest = take_cells left t n width (e + seq_len (t e)) in if ltb e n then rest else e

unfoldable pub back_up : ℕ → Memory → ℕ → ℕ → ℕ
back_up zero t at brk = brk
back_up (suc left) t at brk =
    let rest = back_up left t at (brk - 1) in
    if ltb at brk && not (t (brk - 1) == 0x20) then rest else brk

-- The end of the line that begins at `at`: after a space where that keeps most of the line.
unfoldable pub line_break : Memory → ℕ → ℕ → ℕ → ℕ
line_break t n width at =
    let e = take_cells (n - at) t n width at in
    let brk = back_up (e - at) t at e in
    if ltb e n && not (t e == 0x20) && ltb at brk && leb ((e - at) * 2) ((brk - at) * 3)
    then brk
    else e

unfoldable pub skip_blanks : ℕ → Memory → ℕ → ℕ → ℕ
skip_blanks zero t n at = at
skip_blanks (suc left) t n at =
    let rest = skip_blanks left t n (at + 1) in if ltb at n && t at == 0x20 then rest else at

-- Where the line after the one at `at` begins.
unfoldable pub next_line : Memory → ℕ → ℕ → ℕ → ℕ
next_line t n width at = let e = line_break t n width at in skip_blanks (n - e) t n e

-- The lines of a cell from `at` on, 32 at most, by the rounds left.
unfoldable pub lines_needed : ℕ → Memory → ℕ → ℕ → ℕ → ℕ
lines_needed zero t n width at = 0
lines_needed (suc left) t n width at =
    let rest = lines_needed left t n width (next_line t n width at) in
    if ltb at n then suc rest else 0

-- Where line `pass` of a cell begins, from `at` on.
unfoldable pub line_start : ℕ → Memory → ℕ → ℕ → ℕ → ℕ
line_start zero t n width at = at
line_start (suc pass) t n width at =
    let next = next_line t n width at in
    let rest = line_start pass t n width next in if leb n next then next else rest

abbrev pub cell_text : ℕ → ℕ → TableState → Memory
cell_text r c t = from t.tbuf (get_or t.cell_off (cell_index r c) 0)

abbrev pub cell_size : ℕ → ℕ → TableState → ℕ
cell_size r c t = get_or t.cell_len (cell_index r c) 0

-- The lines of the tallest cell of row `r`, from column `c` on.
unfoldable pub row_lines : ℕ → ℕ → ℕ → TableState → ℕ → ℕ
row_lines zero r c t lines = lines
row_lines (suc left) r c t lines =
    let width = get_or t.col_w c 0 in
    let need = lines_needed 32 (cell_text r c t) (cell_size r c t) width 0 in
    let skipped = cell_size r c t == 0 || width == 0 in
    row_lines left r (c + 1) t (if not skipped && ltb lines need then need else lines)

-- Line `ln` of the cell of column `c`, at `x`.
unfoldable pub draw_cell : Fonts → ℕ → ℕ → ℕ → ℕ → PageRenderer → PageRenderer
draw_cell fonts r ln c x p =
    let t = cell_text r c p.table in
    let n = cell_size r c p.table in
    let width = get_or p.table.col_w c 0 in
    let start = line_start ln t n width 0 in
    let stop = line_break t n width start in
    let placed = record p { x = x; row_open = true } in
    let drawn = emit_run fonts (from t start) (stop - start) false placed in
    if ltb start stop then drawn else p

unfoldable pub draw_columns : ℕ → Fonts → ℕ → ℕ → ℕ → ℕ → PageRenderer → PageRenderer
draw_columns zero fonts r ln c x p = p
draw_columns (suc left) fonts r ln c x p =
    let further = u16 (x + (get_or p.table.col_w c 0 + gap) * font_advance) in
    draw_columns left fonts r ln (c + 1) further (draw_cell fonts r ln c x p)

-- The separators in the gutters that are left.
unfoldable pub gutter_calls : ℕ → ℕ → ℕ → PageRenderer → List Call
gutter_calls zero c sx p = []
gutter_calls (suc left) c sx p =
    let next = u16 (sx + (get_or p.table.col_w c 0 + gap) * font_advance) in
    Call.rect_call (u16 (next + 2 ^ 16 - gap * font_advance / 2 - 1)) (screen_y p) 1 (line_h p) true
    ∷ gutter_calls left (c + 1) next p

unfoldable pub table_line : Fonts → ℕ → ℕ → PageRenderer → PageRenderer
table_line fonts r ln p =
    let cols = p.table.table_cols in
    let celled = draw_columns cols fonts r ln 0 (left_edge p) p in
    let ruled = draw (gutter_calls (cols - 1) 0 (left_edge celled) celled) celled in
    let drawn = if row_visible p then ruled else p in
    record drawn { y = u16 (drawn.y + line_h drawn); row_open = false; x = left_edge drawn }

unfoldable pub table_lines : ℕ → Fonts → ℕ → ℕ → PageRenderer → PageRenderer
table_lines zero fonts r ln p = p
table_lines (suc left) fonts r ln p = table_lines left fonts r (ln + 1) (table_line fonts r ln p)

-- A rule over the width of the page, `up` pixels above the pen's row.
unfoldable pub table_rule : ℕ → PageRenderer → PageRenderer
table_rule up p =
    let y = u16 (screen_y p + 2 ^ 16 - up) in
    let rule = Call.hline_call (left_edge p) y (u16 (right_edge - left_edge p)) true in
    if row_visible p then draw (rule ∷ []) p else p

unfoldable pub table_rows : ℕ → Fonts → ℕ → PageRenderer → PageRenderer
table_rows zero fonts r p = p
table_rows (suc left) fonts r p =
    let lines = row_lines p.table.table_cols r 0 p.table 1 in
    let drawn = table_lines lines fonts r 0 p in
    table_rows left fonts (r + 1) (if r == 0 then table_rule 1 drawn else drawn)

abbrev pub with_widths : List ℕ → PageRenderer → PageRenderer
with_widths ws p = record p { table = record p.table { col_w = ws } }

unfoldable pub table_flush : Fonts → PageRenderer → PageRenderer
table_flush fonts p =
    let avail = u8 ((right_edge - left_edge p) / font_advance) in
    let (ws, some_width) = fit_columns avail p.table.table_cols p.table.col_w in
    let fitted = with_widths ws p in
    let ruled = table_rule 0 (table_rows p.table.t_rows fonts 0 fitted) in
    if p.table.t_rows == 0 || p.table.table_cols == 0
    then p
    else if some_width
    then record ruled { y = u16 (ruled.y + para_gap) }
    else fitted

unfoldable pub on_table_end : Fonts → Style → PageRenderer → PageRenderer
on_table_end fonts s p =
    let flushed = table_flush fonts (record p { depth = s.depth }) in
    record flushed { table = record flushed.table { in_table = false } }
