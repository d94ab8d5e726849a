-- ===== src/Lcd/Braille.antt =====
-- The braille cells, against the numbering of their dots.
use thicket_firmware.Base.{
  ℕ, ◌+◌, ◌-◌, ◌/◌, ◌%◌, ◌^◌, ◌<◌, ◌≡◌, refl, arith, Bool, true, not, ◌&&◌, ◌||◌, ltb, leb, ◌==◌,
  if◌then◌else◌, ◌>>>◌, bit_and, get_or, same, same-eq, some,
}
use thicket_firmware.Base.Bits.{holds_below, three_below, three_below_sound}
use thicket_firmware.Lcd.Text.{Fonts, braille_for, braille_loop, braille_bits, glyph_for}

-- The dot of the cell that covers a pixel: dots 1, 2, 3 and 7 stand in the left column of dots,
-- which is two pixels wide, 4, 5, 6 and 8 in the right one, three pixels on. A dot is two rows
-- high, and the next begins three rows below. Dot `k` is bit `k - 1` of the codepoint.
abbrev pub dot_bit : ℕ → ℕ → ℕ
dot_bit row col =
    if ltb row 10
    then (row - 1) / 3 + (if ltb col 3 then 0 else 3)
    else (if ltb col 3 then 6 else 7)

abbrev pub on_dot : ℕ → ℕ → Bool
on_dot row col =
    leb 1 row && ltb row 12 && not (row % 3 == 0) && (ltb col 2 || (col == 3 || col == 4))

abbrev braille_ok : ℕ → ℕ → ℕ → Bool
braille_ok n row col =
    same (not (bit_and (get_or (braille_for (0x2800 + n)) row 0) (0x80 / 2 ^ col) == 0))
      (on_dot row col && not (n / 2 ^ dot_bit row col % 2 == 0))

braille_table : three_below 256 13 8 braille_ok ≡ true
unfolding holds_below braille_for braille_loop braille_bits
braille_table = refl

-- Every braille codepoint has a glyph, whatever the fonts are, and a pixel of its cell is inked
-- exactly if it lies on a dot whose bit is set in the codepoint.
pub glyph_for-braille :
    (fonts : Fonts) (n row col : ℕ)
    → n < 256
    → row < 13
    → col < 8
    → (glyph_for fonts (0x2800 + n) ≡ some (braille_for (0x2800 + n)))
      × (not (bit_and (get_or (braille_for (0x2800 + n)) row 0) (0x80 >>> col) == 0)
          ≡ on_dot row col && not (n / 2 ^ dot_bit row col % 2 == 0))
unfolding glyph_for
glyph_for-braille fonts n row col hn hr hc = (
  ground arith,
  same-eq _ _ (three_below_sound 256 13 8 braille_ok n row col braille_table hn hr hc),
)
