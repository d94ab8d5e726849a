-- ===== src/Lcd/Text.antt =====
-- lib/SharpLcd/src/SharpLcd.cpp: the decoder of UTF-8, the glyph tables and the four text calls. A
-- text is the list of the bytes before its NUL, so that reading at its end reads 0. The font
-- tables are generated, and a parameter here; the emoji table is written by hand, and is the one
-- of lib/SharpLcd/src/EmojiGlyphs.h.
use thicket_firmware.Base.{
  ℕ, zero, suc, ◌+◌, ◌-◌, ◌/◌, Bool, ◌&&◌, ◌||◌, List, [], ◌∷◌, Option, none, some, ltb, leb, ◌==◌,
  if◌then◌else◌, u8, u16, ◌<<<◌, ◌>>>◌, bit_and, bit_or, get_or, set, replicate,
}
use thicket_firmware.Lcd.SharpLcd.{SharpLcd, set_pixel}

abbrev pub font_w : ℕ
font_w = 6

abbrev pub font_ink_w : ℕ
font_ink_w = 7

abbrev pub font_h : ℕ
font_h = 13

abbrev pub big_font_w : ℕ
big_font_w = 12

abbrev pub big_font_ink_w : ℕ
big_font_ink_w = 14

abbrev pub big_font_h : ℕ
big_font_h = 26

-- The continuation bytes of a sequence, by the number that is missing.
unfoldable pub continued : ℕ → ℕ → List ℕ → ℕ × List ℕ
continued zero cp s = (cp, s)
continued (suc extra) cp [] = (0xFFFD, [])
continued (suc extra) cp (c ∷ s) =
    let rest = continued extra (bit_or (cp <<< 6) (bit_and c 0x3F)) s in
    if bit_and c 0xC0 == 0x80 then rest else (0xFFFD, c ∷ s)

-- One codepoint of the text `c ∷ s`, and the text after it.
unfoldable pub next_cp : ℕ → List ℕ → ℕ × List ℕ
next_cp c s =
    if ltb c 0x80
    then (c, s)
    else (if bit_and c 0xE0 == 0xC0
        then continued 1 (bit_and c 0x1F) s
        else (if bit_and c 0xF0 == 0xE0
            then continued 2 (bit_and c 0x0F) s
            else (if bit_and c 0xF8 == 0xF0 then continued 3 (bit_and c 0x07) s else (0xFFFD, s))))

-- A table of glyphs: entries `0` to `count - 1`, each a codepoint and its rows.
pub record Table : Type 0 where
  pub count : ℕ
  pub cp : ℕ → ℕ
  pub rows : ℕ → List ℕ

-- `while (lo < hi)` of the binary searches; the outer `none` is a search that has not stopped.
unfoldable pub search : ℕ → Table → ℕ → ℕ → ℕ → Option (Option (List ℕ))
search zero table lo hi cp = none
search (suc fuel) table lo hi cp =
    let mid = u16 ((lo + hi) / 2) in
    let below = ltb (table.cp mid) cp in
    let rest =
      search fuel table (if below then u16 (mid + 1) else lo) (if below then hi else mid) cp in
    if ltb lo hi
    then (if table.cp mid == cp then some (some (table.rows mid)) else rest)
    else some none

abbrev pub found : Option (Option (List ℕ)) → Option (List ℕ)
found none = none
found (some rows) = rows

-- The whole search. A round halves the range, so that one more round than entries is enough.
unfoldable pub find : Table → ℕ → Option (List ℕ)
find table cp = found (search (suc table.count) table 0 table.count cp)

-- The generated tables.
pub record Fonts : Type 0 where
  pub font : ℕ → List ℕ
  pub extra : Table
  pub big : Table
  pub bold6 : Table
  pub bold7 : Table
  pub bold8 : Table

abbrev pub emoji_cps : List ℕ
emoji_cps = 0x1F310 ∷ 0x1F3E0 ∷ 0x1F4AC ∷ 0x1F4CA ∷ 0x1F4E9 ∷ 0x1F514 ∷ 0x1F525 ∷ 0x1F642 ∷ []

abbrev pub emoji_rows : List (List ℕ)
emoji_rows =
    (0x00 ∷ 0x00 ∷ 0x30 ∷ 0x48 ∷ 0x94 ∷ 0x94 ∷ 0xFC ∷ 0x94 ∷ 0x94 ∷ 0x48 ∷ 0x30 ∷ 0x00 ∷ 0x00 ∷ [])
    ∷ (0x00 ∷ 0x00 ∷ 0x30 ∷ 0x78 ∷ 0xFC ∷ 0x78 ∷ 0x78 ∷ 0x78 ∷ 0x78 ∷ 0x68 ∷ 0x68 ∷ 0x00 ∷ 0x00
        ∷ [])
    ∷ (0x00 ∷ 0x78 ∷ 0xFC ∷ 0xFC ∷ 0xFC ∷ 0x78 ∷ 0x60 ∷ 0x40 ∷ 0x00 ∷ 0x00 ∷ 0x00 ∷ 0x00 ∷ 0x00
        ∷ [])
    ∷ (0x00 ∷ 0x00 ∷ 0x00 ∷ 0x08 ∷ 0x08 ∷ 0x28 ∷ 0x28 ∷ 0xA8 ∷ 0xA8 ∷ 0xA8 ∷ 0xFC ∷ 0x00 ∷ 0x00
        ∷ [])
    ∷ (0x00 ∷ 0x00 ∷ 0xFC ∷ 0x84 ∷ 0xCC ∷ 0xB4 ∷ 0x84 ∷ 0x84 ∷ 0xFC ∷ 0x00 ∷ 0x00 ∷ 0x00 ∷ 0x00
        ∷ [])
    ∷ (0x00 ∷ 0x00 ∷ 0x30 ∷ 0x30 ∷ 0x78 ∷ 0x78 ∷ 0xFC ∷ 0xFC ∷ 0xFC ∷ 0x30 ∷ 0x00 ∷ 0x00 ∷ 0x00
        ∷ [])
    ∷ (0x00 ∷ 0x00 ∷ 0x10 ∷ 0x30 ∷ 0x30 ∷ 0x70 ∷ 0x78 ∷ 0xFC ∷ 0xFC ∷ 0x78 ∷ 0x30 ∷ 0x00 ∷ 0x00
        ∷ [])
    ∷ (0x00 ∷ 0x00 ∷ 0x30 ∷ 0x48 ∷ 0x84 ∷ 0xCC ∷ 0x84 ∷ 0xCC ∷ 0x78 ∷ 0x30 ∷ 0x00 ∷ 0x00 ∷ 0x00
        ∷ [])
    ∷ []

unfoldable pub emoji : Table
emoji = record { count = 8; cp = λ i. get_or emoji_cps i 0; rows = λ i. get_or emoji_rows i [] }

abbrev pub lmask : List ℕ
lmask = 0x01 ∷ 0x02 ∷ 0x04 ∷ 0x40 ∷ []

abbrev pub rmask : List ℕ
rmask = 0x08 ∷ 0x10 ∷ 0x20 ∷ 0x80 ∷ []

abbrev pub ytop : List ℕ
ytop = 1 ∷ 4 ∷ 7 ∷ 10 ∷ []

unfoldable pub braille_bits : ℕ → ℕ → ℕ
braille_bits n d =
    bit_or (if bit_and n (get_or lmask d 0) == 0 then 0 else 0xC0)
      (if bit_and n (get_or rmask d 0) == 0 then 0 else 0x18)

-- The loop over the four rows of dots, by the rounds left.
unfoldable pub braille_loop : ℕ → ℕ → ℕ → List ℕ → List ℕ
braille_loop zero d n rows = rows
braille_loop (suc left) d n rows =
    let bits = braille_bits n d in
    let top = get_or ytop d 0 in
    let upper = set rows top bits in
    let both = if ltb (u8 (top + 1)) font_h then set upper (top + 1) bits else upper in
    braille_loop left (d + 1) n (if bits == 0 then rows else both)

unfoldable pub braille_for : ℕ → List ℕ
braille_for cp = braille_loop 4 0 (u8 (cp - 0x2800)) (replicate font_h 0)

abbrev pub zero_glyph : List ℕ
zero_glyph = replicate font_h 0

unfoldable pub glyph_for : Fonts → ℕ → Option (List ℕ)
glyph_for fonts cp =
    if leb 32 cp && leb cp 126
    then some (fonts.font (cp - 32))
    else (if leb 0x2800 cp && leb cp 0x28FF
        then some (braille_for cp)
        else (if cp == 0x200D || cp == 0xFE0E || cp == 0xFE0F
            then some zero_glyph
            else (if leb cp 0xFFFF then find fonts.extra cp else find emoji cp)))

abbrev pub missing_box : List ℕ
missing_box =
    0x00 ∷ 0x00 ∷ 0x00 ∷ 0x00 ∷ 0x78 ∷ 0x48 ∷ 0x48 ∷ 0x48 ∷ 0x48 ∷ 0x48 ∷ 0x78 ∷ 0x00 ∷ 0x00 ∷ []

-- The columns of one row of a glyph, by the columns left. `top` is the mask of the first column.
unfoldable pub draw_row : ℕ → ℕ → ℕ → ℕ → ℕ → ℕ → Bool → SharpLcd → SharpLcd
draw_row zero col top bits x y black s = s
draw_row (suc left) col top bits x y black s =
    draw_row left (col + 1) top bits x y black
      (if bit_and bits (top >>> col) == 0 then s else set_pixel (u16 (x + col)) y black s)

-- The rows of a glyph, by the rows left.
unfoldable pub draw_rows : ℕ → ℕ → ℕ → ℕ → List ℕ → ℕ → ℕ → Bool → SharpLcd → SharpLcd
draw_rows zero row ink top g x y black s = s
draw_rows (suc left) row ink top g x y black s =
    let bits = get_or g row 0 in
    draw_rows left (row + 1) ink top g x y black
      (if bits == 0 then s else draw_row ink 0 top bits x (u16 (y + row)) black s)
