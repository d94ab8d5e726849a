-- ===== src/Lcd/Walks.antt =====
-- The four text calls on any bytes: they end, and they only write pixels.
use thicket_firmware.Base.{
  ℕ, zero, suc, ◌+◌, ◌*◌, ◌<◌, ◌≡◌, ◌∙◌, ap, arith, Bool, true, false, List, [], ◌∷◌, Option, none,
  some, leb, ◌==◌, if◌then◌else◌, u16, ◌>>>◌, bit_and, get_or, length, Bool-cases, inl, inr,
}
use thicket_firmware.Lcd.SharpLcd.{SharpLcd, set_pixel}
use thicket_firmware.Lcd.Draw.{Draws, Draws-trans}
use thicket_firmware.Lcd.Text.{Fonts, next_cp, find, glyph_for, draw_row, draw_rows}
use thicket_firmware.Lcd.TextCalls.{
  draw_text, or_box, draw_if, draw_text_big, BoldFace, bold_w, bold_h, bold_table, draw_text_bold,
  scaled_line, scaled_square, scaled_row, scaled_rows, scaled_if, scaled_text, draw_text_scaled,
}
use thicket_firmware.Lcd.Utf8.{next_cp-shorter}

-- A step that may be left out.
optional : (skip : Bool) (s t : SharpLcd) → Draws s t → Draws s (if skip then s else t)
optional true s t d = Draws.still
optional false s t d = d

draw_row-Draws :
    (left col top bits x y : ℕ) (black : Bool) (s : SharpLcd)
    → Draws s (draw_row left col top bits x y black s)
unfolding draw_row
draw_row-Draws zero col top bits x y black s = Draws.still
draw_row-Draws (suc left) col top bits x y black s =
    Draws-trans
      (optional (bit_and bits (top >>> col) == 0) s (set_pixel (u16 (x + col)) y black s)
        (Draws.ink (u16 (x + col)) y black Draws.still))
      (draw_row-Draws left (col + 1) top bits x y black _)

draw_rows-Draws :
    (left row ink top : ℕ) (g : List ℕ) (x y : ℕ) (black : Bool) (s : SharpLcd)
    → Draws s (draw_rows left row ink top g x y black s)
unfolding draw_rows
draw_rows-Draws zero row ink top g x y black s = Draws.still
draw_rows-Draws (suc left) row ink top g x y black s =
    Draws-trans
      (optional (get_or g row 0 == 0) s _
        (draw_row-Draws ink 0 top (get_or g row 0) x (u16 (y + row)) black s))
      (draw_rows-Draws left (row + 1) ink top g x y black _)

draw_if-Draws :
    (height ink top : ℕ) (g : Option (List ℕ)) (x y : ℕ) (black : Bool) (s : SharpLcd)
    → Draws s (draw_if height ink top g x y black s)
unfolding draw_if
draw_if-Draws height ink top none x y black s = Draws.still
draw_if-Draws height ink top (some g) x y black s = draw_rows-Draws height 0 ink top g x y black s

scaled_line-Draws :
    (left sx x y : ℕ) (black : Bool) (s : SharpLcd) → Draws s (scaled_line left sx x y black s)
unfolding scaled_line
scaled_line-Draws zero sx x y black s = Draws.still
scaled_line-Draws (suc left) sx x y black s =
    Draws-trans (Draws.ink (u16 (x + sx)) y black Draws.still)
      (scaled_line-Draws left (sx + 1) x y black _)

scaled_square-Draws :
    (left sy scale x y : ℕ) (black : Bool) (s : SharpLcd)
    → Draws s (scaled_square left sy scale x y black s)
unfolding scaled_square
scaled_square-Draws zero sy scale x y black s = Draws.still
scaled_square-Draws (suc left) sy scale x y black s =
    Draws-trans (scaled_line-Draws scale 0 x (u16 (y + sy)) black s)
      (scaled_square-Draws left (sy + 1) scale x y black _)

scaled_row-Draws :
    (left col scale bits x y : ℕ) (black : Bool) (s : SharpLcd)
    → Draws s (scaled_row left col scale bits x y black s)
unfolding scaled_row
scaled_row-Draws zero col scale bits x y black s = Draws.still
scaled_row-Draws (suc left) col scale bits x y black s =
    Draws-trans
      (optional (bit_and bits (0x80 >>> col) == 0) s _
        (scaled_square-Draws scale 0 scale (x + col * scale) y black s))
      (scaled_row-Draws left (col + 1) scale bits x y black _)

scaled_rows-Draws :
    (left row scale : ℕ) (g : List ℕ) (x y : ℕ) (black : Bool) (s : SharpLcd)
    → Draws s (scaled_rows left row scale g x y black s)
unfolding scaled_rows
scaled_rows-Draws zero row scale g x y black s = Draws.still
scaled_rows-Draws (suc left) row scale g x y black s =
    Draws-trans
      (optional (get_or g row 0 == 0) s _
        (scaled_row-Draws 7 0 scale (get_or g row 0) x (y + row * scale) black s))
      (scaled_rows-Draws left (row + 1) scale g x y black _)

scaled_if-Draws :
    (scale : ℕ) (g : Option (List ℕ)) (x y : ℕ) (black : Bool) (s : SharpLcd)
    → Draws s (scaled_if scale g x y black s)
unfolding scaled_if
scaled_if-Draws scale none x y black s = Draws.still
scaled_if-Draws scale (some g) x y black s = scaled_rows-Draws 13 0 scale g x y black s

-- The codepoints of a text, by the rounds of the walk.
abbrev pub codepoints : ℕ → List ℕ → ℕ
codepoints zero text = 0
codepoints (suc fuel) [] = 0
codepoints (suc fuel) (c ∷ text) = suc (codepoints fuel (next_cp c text).1)

-- A walk that ended, with pixel writes only and the pen `n` cells further.
abbrev pub Ends : ℕ → ℕ → ℕ → SharpLcd → Option (ℕ × SharpLcd) → Type 0
Ends cell n x s r = (t : SharpLcd) × (r ≡ some (u16 (x + cell * n), t)) × Draws s t

Ends-here : (cell x : ℕ) (s : SharpLcd) → x < 65536 → Ends cell 0 x s (some (x, s))
Ends-here cell x s h = (s, ap (λ k. some (k, s)) (ground arith), Draws.still)

Ends-later :
    (cell n x : ℕ) (s t : SharpLcd) (r : Option (ℕ × SharpLcd))
    → Draws s t
    → Ends cell n (u16 (x + cell)) t r
    → Ends cell (suc n) x s r
Ends-later cell n x s t r d (u, e, f) =
    let step : cell * suc n ≡ cell + cell * n = grind arith in
    let pen : u16 (u16 (x + cell) + cell * n) ≡ u16 (x + cell * suc n) = ground (arith, step) in
    (u, e ∙ ap (λ k. some (k, u)) pen, Draws-trans d f)

draw_text-Ends :
    (fuel : ℕ) (fonts : Fonts) (x y : ℕ) (text : List ℕ) (black : Bool) (s : SharpLcd)
    → x < 65536
    → length text < fuel
    → Ends 6 (codepoints fuel text) x s (draw_text fuel fonts x y text black s)
unfolding draw_text
draw_text-Ends zero fonts x y text black s h enough = absurd (omega arith)
draw_text-Ends (suc fuel) fonts x y [] black s h enough = Ends-here 6 x s h
draw_text-Ends (suc fuel) fonts x y (c ∷ text) black s h enough =
    let g = or_box (glyph_for fonts (next_cp c text).0) in
    Ends-later 6 _ x s _ _ (draw_rows-Draws 13 0 7 0x80 g x y black s) (
      draw_text-Ends fuel fonts (u16 (x + 6)) y (next_cp c text).1 black _ (omega arith)
        (omega (arith, next_cp-shorter c text)))

draw_text_big-Ends :
    (fuel : ℕ) (fonts : Fonts) (x y : ℕ) (text : List ℕ) (black : Bool) (s : SharpLcd)
    → x < 65536
    → length text < fuel
    → Ends 12 (codepoints fuel text) x s (draw_text_big fuel fonts x y text black s)
unfolding draw_text_big
draw_text_big-Ends zero fonts x y text black s h enough = absurd (omega arith)
draw_text_big-Ends (suc fuel) fonts x y [] black s h enough = Ends-here 12 x s h
draw_text_big-Ends (suc fuel) fonts x y (c ∷ text) black s h enough =
    let g = find fonts.big (next_cp c text).0 in
    Ends-later 12 _ x s _ _ (draw_if-Draws 26 14 0x8000 g x y black s) (
      draw_text_big-Ends fuel fonts (u16 (x + 12)) y (next_cp c text).1 black _ (omega arith)
        (omega (arith, next_cp-shorter c text)))

draw_text_bold-Ends :
    (fuel : ℕ) (fonts : Fonts) (x y : ℕ) (text : List ℕ) (face : BoldFace) (black : Bool)
    (s : SharpLcd)
    → x < 65536
    → length text < fuel
    → Ends
        (bold_w face)
        (codepoints fuel text)
        x
        s
        (draw_text_bold fuel fonts x y text face black s)
unfolding draw_text_bold
draw_text_bold-Ends zero fonts x y text face black s h enough = absurd (omega arith)
draw_text_bold-Ends (suc fuel) fonts x y [] face black s h enough = Ends-here (bold_w face) x s h
draw_text_bold-Ends (suc fuel) fonts x y (c ∷ text) face black s h enough =
    let g = find (bold_table fonts face) (next_cp c text).0 in
    Ends-later (bold_w face) _ x s _ _ (draw_if-Draws (bold_h face) 8 0x80 g x y black s) (
      draw_text_bold-Ends fuel fonts (u16 (x + bold_w face)) y (next_cp c text).1 face black _
        (omega arith) (omega (arith, next_cp-shorter c text)))

scaled_text-Ends :
    (fuel : ℕ) (fonts : Fonts) (x y : ℕ) (text : List ℕ) (black : Bool) (scale : ℕ) (s : SharpLcd)
    → x < 65536
    → length text < fuel
    → Ends (6 * scale) (codepoints fuel text) x s (scaled_text fuel fonts x y text black scale s)
unfolding scaled_text
scaled_text-Ends zero fonts x y text black scale s h enough = absurd (omega arith)
scaled_text-Ends (suc fuel) fonts x y [] black scale s h enough = Ends-here (6 * scale) x s h
scaled_text-Ends (suc fuel) fonts x y (c ∷ text) black scale s h enough =
    let g = glyph_for fonts (next_cp c text).0 in
    Ends-later (6 * scale) _ x s _ _ (scaled_if-Draws scale g x y black s) (
      scaled_text-Ends fuel fonts (u16 (x + 6 * scale)) y (next_cp c text).1 black scale _
        (omega arith) (omega (arith, next_cp-shorter c text)))

-- The width of a cell at a scale.
abbrev pub scaled_w : ℕ → ℕ
scaled_w scale = if leb scale 1 then 6 else 6 * scale

-- Whatever the bytes and the fonts are, from any x of 16 bits and any y, all four text calls
-- reach the end of the text within a round for each byte and one more, and change the framebuffer
-- by pixel writes only. They walk the same codepoints, and each returns the x that lies one of
-- its cells further for each of them, at 16 bits, whether or not its face has a glyph.
pub text_calls-Ends :
    (fuel : ℕ) (fonts : Fonts) (x y : ℕ) (text : List ℕ) (face : BoldFace) (black : Bool)
    (scale : ℕ) (s : SharpLcd)
    → x < 65536
    → length text < fuel
    → let n = codepoints fuel text in
      Ends 6 n x s (draw_text fuel fonts x y text black s)
      × Ends 12 n x s (draw_text_big fuel fonts x y text black s)
      × Ends (bold_w face) n x s (draw_text_bold fuel fonts x y text face black s)
      × Ends (scaled_w scale) n x s (draw_text_scaled fuel fonts x y text black scale s)
unfolding draw_text_scaled
text_calls-Ends fuel fonts x y text face black scale s h enough = (
  draw_text-Ends fuel fonts x y text black s h enough,
  draw_text_big-Ends fuel fonts x y text black s h enough,
  draw_text_bold-Ends fuel fonts x y text face black s h enough,
  elim (Bool-cases (leb scale 1)) [
    | inl plain ↦ rw plain (draw_text-Ends fuel fonts x y text black s h enough)
    | inr large ↦ rw large (scaled_text-Ends fuel fonts x y text black scale s h enough)
  ],
)
