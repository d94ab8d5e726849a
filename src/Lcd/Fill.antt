-- ===== src/Lcd/Fill.antt =====
-- lib/SharpLcd/src/SharpLcd.cpp: `fill_rect`, `draw_hline` and `fill_dither`. The loop counters
-- are 16 bits wide and wrap; `y + h` and `x + w` are computed as `int` and do not. A loop is
-- recursion on fuel, and `none` is a loop that has not stopped.
use thicket_firmware.Base.{
  ℕ, zero, suc, ◌+◌, ◌*◌, Bool, true, List, [], ◌∷◌, ◌&&◌, Option, none, some, ltb, leb,
  if◌then◌else◌, u16, bit_and, get_or, ◌>>=◌,
}
use thicket_firmware.Lcd.SharpLcd.{SharpLcd, set_pixel, lcd_width, lcd_height}

-- `for (xx = ...; xx < end; ++xx) set_pixel(xx, y, black)`
unfoldable pub hline_loop : ℕ → ℕ → ℕ → ℕ → Bool → SharpLcd → Option SharpLcd
hline_loop zero xx end y black s = none
hline_loop (suc fuel) xx end y black s =
    let rest = hline_loop fuel (u16 (xx + 1)) end y black (set_pixel xx y black s) in
    if ltb xx end then rest else some s

unfoldable pub draw_hline : ℕ → ℕ → ℕ → ℕ → Bool → SharpLcd → Option SharpLcd
draw_hline fuel x y w black s = hline_loop fuel x (x + w) y black s

-- The rows of `fill_rect`; `inner` is the fuel of a row.
unfoldable pub rect_loop : ℕ → ℕ → ℕ → ℕ → ℕ → ℕ → Bool → SharpLcd → Option SharpLcd
rect_loop zero inner yy end x w black s = none
rect_loop (suc fuel) inner yy end x w black s =
    let rows = hline_loop inner x (x + w) yy black s >>= λ t.
    rect_loop fuel inner (u16 (yy + 1)) end x w black t in
    if ltb yy end then rows else some s

unfoldable pub fill_rect : ℕ → ℕ → ℕ → ℕ → ℕ → Bool → SharpLcd → Option SharpLcd
fill_rect fuel x y w h black s = rect_loop fuel fuel y (y + h) x w black s

abbrev pub bayer4 : List ℕ
bayer4 = 8 ∷ 136 ∷ 40 ∷ 168 ∷ 200 ∷ 72 ∷ 232 ∷ 104 ∷ 56 ∷ 184 ∷ 24 ∷ 152 ∷ 248 ∷ 120 ∷ 216 ∷ 88 ∷ []

unfoldable pub dither_on : ℕ → ℕ → ℕ → Bool
dither_on x y level = leb level (get_or bayer4 (bit_and y 3 * 4 + bit_and x 3) 0)

-- One row of `fill_dither`.
unfoldable pub dither_row : ℕ → ℕ → ℕ → ℕ → ℕ → SharpLcd → Option SharpLcd
dither_row zero xx end y level s = none
dither_row (suc fuel) xx end y level s =
    let inked = if dither_on xx y level then set_pixel xx y true s else s in
    let rest = dither_row fuel (u16 (xx + 1)) end y level inked in
    if ltb xx end && ltb xx lcd_width then rest else some s

unfoldable pub dither_loop : ℕ → ℕ → ℕ → ℕ → ℕ → ℕ → ℕ → SharpLcd → Option SharpLcd
dither_loop zero inner yy end x w level s = none
dither_loop (suc fuel) inner yy end x w level s =
    let rows = dither_row inner x (x + w) yy level s >>= λ t.
    dither_loop fuel inner (u16 (yy + 1)) end x w level t in
    if ltb yy end && ltb yy lcd_height then rows else some s

unfoldable pub fill_dither : ℕ → ℕ → ℕ → ℕ → ℕ → ℕ → SharpLcd → Option SharpLcd
fill_dither fuel x y w h level s =
    if leb 249 level then some s else dither_loop fuel fuel y (y + h) x w level s
