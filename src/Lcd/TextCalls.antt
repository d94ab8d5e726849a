-- ===== src/Lcd/TextCalls.antt =====
-- lib/SharpLcd/src/SharpLcd.cpp: `draw_text`, `draw_text_scaled`, `draw_text_big` and
-- `draw_text_bold`. Each walks its text by `next_cp`, on fuel; `none` is a walk that has not
-- reached the end of the text. The result is the x past the last glyph and the new state.
use thicket_firmware.Base.{
  ℕ, zero, suc, ◌+◌, ◌*◌, Bool, List, [], ◌∷◌, Option, none, some, leb, ◌==◌, if◌then◌else◌, u16,
  ◌>>>◌, bit_and, get_or,
}
use thicket_firmware.Lcd.SharpLcd.{SharpLcd, set_pixel}
use thicket_firmware.Lcd.Text.{
  Fonts, Table, font_w, font_ink_w, font_h, big_font_w, big_font_ink_w, big_font_h, next_cp, find,
  glyph_for, missing_box, draw_rows,
}

unfoldable pub or_box : Option (List ℕ) → List ℕ
or_box none = missing_box
or_box (some g) = g

unfoldable pub draw_text : ℕ → Fonts → ℕ → ℕ → List ℕ → Bool → SharpLcd → Option (ℕ × SharpLcd)
draw_text zero fonts x y text black s = none
draw_text (suc fuel) fonts x y [] black s = some (x, s)
draw_text (suc fuel) fonts x y (c ∷ text) black s =
    let (cp, rest) = next_cp c text in
    let g = or_box (glyph_for fonts cp) in
    draw_text fuel fonts (u16 (x + font_w)) y rest black
      (draw_rows font_h 0 font_ink_w 0x80 g x y black s)

-- A glyph that may be missing, which draws nothing then.
unfoldable pub draw_if : ℕ → ℕ → ℕ → Option (List ℕ) → ℕ → ℕ → Bool → SharpLcd → SharpLcd
draw_if height ink top none x y black s = s
draw_if height ink top (some g) x y black s = draw_rows height 0 ink top g x y black s

unfoldable pub draw_text_big : ℕ → Fonts → ℕ → ℕ → List ℕ → Bool → SharpLcd → Option (ℕ × SharpLcd)
draw_text_big zero fonts x y text black s = none
draw_text_big (suc fuel) fonts x y [] black s = some (x, s)
draw_text_big (suc fuel) fonts x y (c ∷ text) black s =
    let (cp, rest) = next_cp c text in
    draw_text_big fuel fonts (u16 (x + big_font_w)) y rest black
      (draw_if big_font_h big_font_ink_w 0x8000 (find fonts.big cp) x y black s)

pub data BoldFace : Type 0 where
  bold_inline : BoldFace
  bold_h3 : BoldFace
  bold_h2 : BoldFace

unfoldable pub bold_w : BoldFace → ℕ
bold_w bold_inline = 6
bold_w bold_h3 = 7
bold_w bold_h2 = 8

unfoldable pub bold_h : BoldFace → ℕ
bold_h bold_inline = 12
bold_h bold_h3 = 13
bold_h bold_h2 = 16

unfoldable pub bold_table : Fonts → BoldFace → Table
bold_table fonts bold_inline = fonts.bold6
bold_table fonts bold_h3 = fonts.bold7
bold_table fonts bold_h2 = fonts.bold8

unfoldable pub draw_text_bold :
    ℕ → Fonts → ℕ → ℕ → List ℕ → BoldFace → Bool → SharpLcd → Option (ℕ × SharpLcd)
draw_text_bold zero fonts x y text face black s = none
draw_text_bold (suc fuel) fonts x y [] face black s = some (x, s)
draw_text_bold (suc fuel) fonts x y (c ∷ text) face black s =
    let (cp, rest) = next_cp c text in
    draw_text_bold fuel fonts (u16 (x + bold_w face)) y rest face black
      (draw_if (bold_h face) 8 0x80 (find (bold_table fonts face) cp) x y black s)

-- The square of one scaled pixel: the columns of one of its lines, then the lines.
unfoldable pub scaled_line : ℕ → ℕ → ℕ → ℕ → Bool → SharpLcd → SharpLcd
scaled_line zero sx x y black s = s
scaled_line (suc left) sx x y black s =
    scaled_line left (sx + 1) x y black (set_pixel (u16 (x + sx)) y black s)

unfoldable pub scaled_square : ℕ → ℕ → ℕ → ℕ → ℕ → Bool → SharpLcd → SharpLcd
scaled_square zero sy scale x y black s = s
scaled_square (suc left) sy scale x y black s =
    scaled_square left (sy + 1) scale x y black (scaled_line scale 0 x (u16 (y + sy)) black s)

unfoldable pub scaled_row : ℕ → ℕ → ℕ → ℕ → ℕ → ℕ → Bool → SharpLcd → SharpLcd
scaled_row zero col scale bits x y black s = s
scaled_row (suc left) col scale bits x y black s =
    let next =
      if bit_and bits (0x80 >>> col) == 0
      then s
      else scaled_square scale 0 scale (x + col * scale) y black s in
    scaled_row left (col + 1) scale bits x y black next

unfoldable pub scaled_rows : ℕ → ℕ → ℕ → List ℕ → ℕ → ℕ → Bool → SharpLcd → SharpLcd
scaled_rows zero row scale g x y black s = s
scaled_rows (suc left) row scale g x y black s =
    let bits = get_or g row 0 in
    let next =
      if bits == 0 then s else scaled_row font_ink_w 0 scale bits x (y + row * scale) black s in
    scaled_rows left (row + 1) scale g x y black next

unfoldable pub scaled_if : ℕ → Option (List ℕ) → ℕ → ℕ → Bool → SharpLcd → SharpLcd
scaled_if scale none x y black s = s
scaled_if scale (some g) x y black s = scaled_rows font_h 0 scale g x y black s

-- The walk of `draw_text_scaled` at a scale above 1.
unfoldable pub scaled_text :
    ℕ → Fonts → ℕ → ℕ → List ℕ → Bool → ℕ → SharpLcd → Option (ℕ × SharpLcd)
scaled_text zero fonts x y text black scale s = none
scaled_text (suc fuel) fonts x y [] black scale s = some (x, s)
scaled_text (suc fuel) fonts x y (c ∷ text) black scale s =
    let (cp, rest) = next_cp c text in
    scaled_text fuel fonts (u16 (x + font_w * scale)) y rest black scale
      (scaled_if scale (glyph_for fonts cp) x y black s)

unfoldable pub draw_text_scaled :
    ℕ → Fonts → ℕ → ℕ → List ℕ → Bool → ℕ → SharpLcd → Option (ℕ × SharpLcd)
draw_text_scaled fuel fonts x y text black scale s =
    if leb scale 1
    then draw_text fuel fonts x y text black s
    else scaled_text fuel fonts x y text black scale s
