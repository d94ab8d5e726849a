-- ===== src/Render/Page.antt =====
-- lib/MicronRender/src/MicronRender.{h,cpp}: the metrics, the renderer's small operations and
-- `emit_literal`.
use thicket_firmware.Base.{
  ℕ, zero, suc, ◌+◌, ◌-◌, ◌*◌, ◌^◌, Bool, true, false, not, ◌&&◌, List, [], ◌∷◌, ◌++◌, Option, none,
  some, ltb, leb, ◌==◌, if◌then◌else◌, u16, u32, bit_and, length,
}
use thicket_firmware.Base.Memory.{Memory, slice}
use thicket_firmware.Lcd.Text.{Fonts, next_cp, glyph_for}
use thicket_firmware.Lcd.SharpLcd.{lcd_width, lcd_height}
use thicket_firmware.Render.State.{Call, Missing, PageRenderer, max_missing}

abbrev pub margin_x : ℕ
margin_x = 2

abbrev pub cell_h : ℕ
cell_h = 13

abbrev pub indent_px : ℕ
indent_px = 12

abbrev pub max_depth : ℕ
max_depth = 4

abbrev pub font_advance : ℕ
font_advance = 6

-- Bytes in one UTF-8 sequence.
unfoldable pub seq_len : ℕ → ℕ
seq_len c =
    if ltb c 0x80
    then 1
    else if bit_and c 0xE0 == 0xC0
    then 2
    else if bit_and c 0xF0 == 0xE0
    then 3
    else if bit_and c 0xF8 == 0xF0
    then 4
    else 1

abbrev pub line_h : PageRenderer → ℕ
line_h p = u16 (cell_h + p.leading)

-- The height of the row being laid out.
abbrev pub height : PageRenderer → ℕ
height p = if p.row_h == 0 then line_h p else p.row_h

unfoldable pub left_edge : PageRenderer → ℕ
left_edge p = u16 (margin_x + (if ltb max_depth p.depth then max_depth else p.depth) * indent_px)

unfoldable pub row_visible : PageRenderer → Bool
row_visible p = leb p.scroll p.y && ltb p.y (p.scroll + lcd_height)

-- The difference wraps at 16 bits.
unfoldable pub screen_y : PageRenderer → ℕ
screen_y p = u16 (p.y + 2 ^ 16 - p.scroll)

unfoldable pub newline : PageRenderer → PageRenderer
newline p =
    let below = record p { y = u16 (p.y + height p) } in
    record below { x = left_edge below; row_open = false }

unfoldable pub wrap_if_needed : ℕ → PageRenderer → PageRenderer
wrap_if_needed next_w p =
    if ltb (left_edge p) p.x && ltb (lcd_width - margin_x) (p.x + next_w) then newline p else p

unfoldable pub blank_line : PageRenderer → PageRenderer
blank_line p =
    if p.blank_pending then p else record p { y = u16 (p.y + line_h p); blank_pending = true }

-- One more of a codepoint that is counted already; `none` where it is not.
unfoldable pub count_again : ℕ → List Missing → Option (List Missing)
count_again cp [] = none
count_again cp (m ∷ ms) =
    if m.cp == cp
    then some (record m { n = u16 (m.n + 1) } ∷ ms)
    else elim (count_again cp ms) [ none ↦ none | some ms' ↦ some (m ∷ ms') ]

unfoldable pub note_missing : ℕ → PageRenderer → PageRenderer
note_missing cp p =
    let counted = record p { missing_total = u32 (p.missing_total + 1) } in
    elim (count_again cp p.missing) [
      | some ms ↦ record counted { missing = ms }
      | none ↦
          if ltb (length p.missing) max_missing
          then record counted { missing = p.missing ++ record { cp = cp; n = 1 } ∷ [] }
          else record counted { missing_over = true }
    ]

-- The bytes before the first NUL.
unfoldable pub until_nul : List ℕ → List ℕ
until_nul [] = []
until_nul (b ∷ bs) = let rest = b ∷ until_nul bs in if b == 0 then [] else rest

-- The glyph at `k` as a string of its own, and its codepoint.
abbrev pub glyph : Memory → ℕ → List ℕ
glyph t k = until_nul (slice t k (seq_len (t k)))

abbrev pub glyph_cp : Memory → ℕ → ℕ
glyph_cp t k = (next_cp (t k) (slice t (k + 1) (seq_len (t k) - 1))).0

-- A codepoint is counted where the body font has no glyph for it.
unfoldable pub count_missing : Fonts → ℕ → PageRenderer → PageRenderer
count_missing fonts cp p = elim (glyph_for fonts cp) [ none ↦ note_missing cp p | some _ ↦ p ]

abbrev pub call : Call → PageRenderer → PageRenderer
call c p = record p { calls = p.calls ++ c ∷ [] }

abbrev pub right_edge : ℕ
right_edge = lcd_width - margin_x

abbrev pub last_cell : ℕ
last_cell = right_edge - font_advance

-- The codepoints of a run from `i` on, by the rounds left.
unfoldable pub cells_from : ℕ → Memory → ℕ → ℕ → ℕ
cells_from zero t n i = 0
cells_from (suc left) t n i = if ltb i n then suc (cells_from left t n (i + seq_len (t i))) else 0

unfoldable pub cells : Memory → ℕ → ℕ
cells t n = cells_from n t n 0

-- The mark in the last column of a clipped line.
unfoldable pub clip_mark : Bool → PageRenderer → PageRenderer
clip_mark invert p =
    let marked =
      call (Call.text_call last_cell (screen_y p) (0xC2 ∷ 0xBB ∷ []) (not invert))
        (call (Call.rect_call last_cell (screen_y p) font_advance (height p) invert) p) in
    let drawn = if row_visible p then marked else p in record drawn { row_open = true }

-- One glyph of a literal line, at `k`.
unfoldable pub literal_glyph : Fonts → Memory → Bool → ℕ → PageRenderer → PageRenderer
literal_glyph fonts t invert k p =
    let counted = count_missing fonts (glyph_cp t k) p in
    let filled =
      if invert
      then call (Call.rect_call counted.x (screen_y counted) font_advance (height counted) true)
          counted
      else counted in
    let drawn =
      if row_visible counted
      then call (Call.text_call counted.x (screen_y counted) (glyph t k) (not invert)) filled
      else counted in
    record drawn { x = u16 (drawn.x + font_advance); row_open = true }

-- `while (k < n)`. Every round takes a byte or more, so that `n - k` rounds are enough.
unfoldable pub literal_loop : ℕ → Fonts → Memory → ℕ → Bool → ℕ → PageRenderer → PageRenderer
literal_loop zero fonts t n invert k p = p
literal_loop (suc left) fonts t n invert k p =
    let rest =
      literal_loop left fonts t n invert (k + seq_len (t k)) (literal_glyph fonts t invert k p) in
    if ltb k n
    then (if ltb right_edge (p.x + font_advance) then clip_mark invert p else rest)
    else p

unfoldable pub emit_literal : Fonts → Memory → ℕ → Bool → PageRenderer → PageRenderer
emit_literal fonts t n invert p =
    literal_loop n fonts t n invert 0 (if p.row_open then p else record p { x = left_edge p })
