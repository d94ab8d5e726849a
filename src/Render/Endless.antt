-- ===== src/Render/Endless.antt =====
-- A field bar that starts right of the margin: its width wraps.
use thicket_firmware.Base.{
  ℕ, zero, suc, ◌+◌, ◌-◌, ◌*◌, ◌^◌, ◌≤◌, ◌<◌, ◌≡◌, refl, arith, Bool, true, false, none, ltb, leb,
  u16,
}
use thicket_firmware.Lcd.SharpLcd.{SharpLcd, set_pixel}
use thicket_firmware.Lcd.Fill.{hline_loop, rect_loop, fill_rect}
use thicket_firmware.Lcd.Text.{Fonts}
use thicket_firmware.Render.State.{PageRenderer}
use thicket_firmware.Render.Page.{height, row_visible, screen_y}
use thicket_firmware.Render.Fields.{field_bar}
use thicket_firmware.Render.Replay.{play, replay}

hline_loop-none :
    (fuel xx end y : ℕ) (black : Bool) (s : SharpLcd)
    → xx ≤ 65535
    → 65535 < end
    → hline_loop fuel xx end y black s ≡ none
unfolding hline_loop
hline_loop-none zero xx end y black s low high = refl
hline_loop-none (suc fuel) xx end y black s low high =
    let rest =
      hline_loop-none fuel (u16 (xx + 1)) end y black (set_pixel xx y black s) (omega arith) high in
    ground (arith, rest)

-- A rectangle of one row or more whose right edge does not fit 16 bits is never finished.
fill_rect-wide :
    (fuel x y w h : ℕ) (black : Bool) (s : SharpLcd)
    → x ≤ 65535
    → 65535 < x + w
    → 0 < h
    → fill_rect fuel x y w h black s ≡ none
unfolding fill_rect rect_loop
fill_rect-wide zero x y w h black s low high tall = refl
fill_rect-wide (suc fuel) x y w h black s low high tall =
    let more : ltb y (y + h) ≡ true = ground arith in
    rw (more, hline_loop-none (suc fuel) x (x + w) y black s low high) refl

-- Where the pen of a text field is right of the right margin, on a visible row that is not empty
-- and on a background of a luma below 128, the display never finishes the field's bar: the room
-- that is left is negative, its cast to 16 bits wraps, and no number of rounds is enough.
pub field_bar-endless :
    (fuel : ℕ) (fonts : Fonts) (w luma : ℕ) (p : PageRenderer) (s : SharpLcd)
    → row_visible p ≡ true
    → 398 < p.x
    → p.x < 65536
    → 0 < height p
    → luma < 128
    → replay fuel fonts (field_bar w true luma p) s ≡ none
unfolding field_bar replay play
field_bar-endless fuel fonts w luma p s seen past low tall dark =
    let over : leb (p.x + w * 6) 398 ≡ false = ground arith in
    let half : ltb luma 128 ≡ true = ground arith in
    let room : u16 (398 + 2 ^ 16 - p.x) ≡ 65934 - p.x = omega arith in
    let wide =
      fill_rect-wide fuel p.x (screen_y p) (65934 - p.x) (height p) true s (omega arith)
        (omega arith) tall in
    rw (seen, half, over, room, wide) refl
