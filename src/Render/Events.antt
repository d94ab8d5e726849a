-- ===== src/Render/Events.antt =====
-- lib/MicronRender/src/MicronRender.cpp: what the renderer does for each event of the parser but
-- those of tables and fields.
use thicket_firmware.Base.{
  ℕ, zero, suc, ◌+◌, ◌-◌, ◌*◌, ◌/◌, ◌^◌, Bool, true, false, not, ◌&&◌, List, [], ◌∷◌, ◌++◌, ltb,
  leb, ◌==◌, if◌then◌else◌, u8, u16, ◌<<<◌, ◌>>>◌, bit_and, bit_or, length,
}
use thicket_firmware.Base.Memory.{Memory}
use thicket_firmware.Lcd.Text.{Fonts, big_font_h}
use thicket_firmware.Lcd.TextCalls.{BoldFace, bold_h}
use thicket_firmware.Render.State.{
  Call, Align, Style, Image, LinkBox, PageRenderer, max_links, string,
}
use thicket_firmware.Render.Page.{
  font_advance, right_edge, seq_len, cells, height, left_edge, row_visible, screen_y, newline,
  note_missing, until_nul,
}
use thicket_firmware.Render.Ink.{luma_of}
use thicket_firmware.Render.Faces.{has_glyph, big_has, bold_has, advance, draw}
use thicket_firmware.Render.Run.{emit_run}

abbrev pub para_gap : ℕ
para_gap = 4

abbrev pub head_gap_big : ℕ
head_gap_big = 9

-- A fresh row restarts at its left edge.
unfoldable pub at_edge : PageRenderer → PageRenderer
at_edge p = if p.row_open then p else record p { x = left_edge p }

abbrev pub with_depth : Style → PageRenderer → PageRenderer
with_depth s p = record p { depth = s.depth }

-- Where an aligned span of width `w` starts, where `avail` pixels are right of the left edge.
unfoldable pub aligned_x : Align → ℕ → ℕ → PageRenderer → ℕ
aligned_x Align.left w avail p = p.x
aligned_x Align.center w avail p = u16 (left_edge p + (avail - w) / 2)
aligned_x Align.right w avail p = u16 (right_edge - w)

-- A span on a fresh row is aligned where it fits the row.
unfoldable pub align_span : Memory → ℕ → Align → PageRenderer → PageRenderer
align_span t n align p =
    let w = u16 (cells t n * advance p) in
    let avail = u16 (right_edge - left_edge p) in
    if not p.row_open && leb w avail then record p { x = aligned_x align w avail p } else p

-- The codepoint of a sequence of one, two or three bytes; longer ones are in no heading's face.
unfoldable pub heading_cp : Memory → ℕ → ℕ
heading_cp t k =
    let len = seq_len (t k) in
    let low : ℕ → ℕ = λ j. bit_and (t (k + j)) 0x3F in
    if len == 2
    then bit_or (bit_and (t k) 0x1F <<< 6) (low 1)
    else if len == 3
    then bit_or (bit_or (bit_and (t k) 0x0F <<< 12) (low 1 <<< 6)) (low 2)
    else if ltb 3 len
    then 0xFFFF
    else t k

abbrev pub head_face : ℕ → BoldFace
head_face want = if want == 2 then BoldFace.bold_h2 else BoldFace.bold_h3

-- `for (k = 0; k < n && all; )`, by the rounds left.
unfoldable pub all_in_face : ℕ → Fonts → ℕ → Memory → ℕ → ℕ → Bool
all_in_face zero fonts want t n k = true
all_in_face (suc left) fonts want t n k =
    let cp = heading_cp t k in
    let has = if want == 1 then big_has fonts cp else bold_has fonts cp (head_face want) in
    let rest = all_in_face left fonts want t n (k + seq_len (t k)) in
    if ltb k n then has && rest else true

abbrev pub wanted_face : Style → ℕ
wanted_face s = if leb s.depth 1 then 1 else if s.depth == 2 then 2 else 3

-- The height of a heading's face.
unfoldable pub face_h : ℕ → ℕ
face_h want = if want == 1 then big_font_h else bold_h (head_face want)

-- A heading takes its face where the face has all of its codepoints.
abbrev pub takes_face : Fonts → Memory → ℕ → Style → PageRenderer → Bool
takes_face fonts t n s p =
    p.head2x && s.heading && not p.row_open && ltb 0 n && all_in_face n fonts (wanted_face s) t n 0

unfoldable pub choose_face : Fonts → Memory → ℕ → Style → PageRenderer → PageRenderer
choose_face fonts t n s p =
    let want = wanted_face s in
    if takes_face fonts t n s p
    then record p { head = want; big = want == 1; row_h = u16 (face_h want + p.leading) }
    else p

abbrev pub dark_bg : PageRenderer → Bool
dark_bg p = p.has_bg && ltb p.bg_luma 128

-- The style of a run on the row, once its background is known and its face is chosen.
abbrev pub restyled : Style → PageRenderer → PageRenderer
restyled s p = record p {
  bold = s.bold && p.head == 0;
  underline = s.underline;
  head_rule = p.stepped && s.heading && leb 2 s.depth && p.head == 0;
  invert = dark_bg p;
}

abbrev pub with_bg : Style → PageRenderer → PageRenderer
with_bg s p = record p { has_bg = not s.bg.is_default && s.bg.is_valid; bg_luma = luma_of s.bg }

-- The row that a text begins on or goes on with.
abbrev pub begin_text : Style → PageRenderer → PageRenderer
begin_text s p = record p { depth = s.depth; blank_pending = false; literal = s.literal }

unfoldable pub on_text : Fonts → Memory → ℕ → Style → PageRenderer → PageRenderer
on_text fonts t n s p =
    let placed = align_span t n s.align (at_edge (begin_text s p)) in
    let headed = choose_face fonts t n s (with_bg s placed) in
    emit_run fonts t n (dark_bg headed) (restyled s headed)

abbrev pub link_box : ℕ → ℕ → Memory → ℕ → PageRenderer → LinkBox
link_box x0 y0 target target_len p = record {
  x = x0;
  y = y0;
  w = u16 (if ltb x0 p.x then p.x - x0 else 0);
  h = height p;
  target = target;
  target_len = u16 target_len;
}

-- The box of a link whose label began at `x0` and `y0`, where the table has room for it.
unfoldable pub record_link : ℕ → ℕ → Memory → ℕ → PageRenderer → PageRenderer
record_link x0 y0 target target_len p =
    if row_visible p && ltb (length p.links) max_links
    then record p { links = p.links ++ link_box x0 y0 target target_len p ∷ [] }
    else if row_visible p
    then record p { links_overflowed = true }
    else p

unfoldable pub on_link : Fonts → Memory → ℕ → Memory → ℕ → Style → PageRenderer → PageRenderer
on_link fonts label label_len target target_len s p =
    let begun = at_edge (with_depth s p) in
    record_link begun.x (screen_y begun) target target_len
      (emit_run fonts label label_len begun.invert begun)

-- The bytes of a divider's character.
unfoldable pub divider_bytes : ℕ → List ℕ
divider_bytes ch =
    if ltb ch 0x80
    then u8 ch ∷ []
    else if ltb ch 0x800
    then u8 (bit_or 0xC0 (ch >>> 6)) ∷ u8 (bit_or 0x80 (bit_and ch 0x3F)) ∷ []
    else u8 (bit_or 0xE0 (ch >>> 12))
      ∷ u8 (bit_or 0x80 (bit_and (ch >>> 6) 0x3F))
      ∷ u8 (bit_or 0x80 (bit_and ch 0x3F))
      ∷ []

-- The cells of a divider from `x` on, by the rounds left.
unfoldable pub divider_calls : ℕ → ℕ → ℕ → List ℕ → List Call
divider_calls zero x y g = []
divider_calls (suc left) x y g =
    let rest = Call.text_call x y g true ∷ divider_calls left (u16 (x + font_advance)) y g in
    if leb (x + font_advance) right_edge then rest else []

-- A row has at most 66 cells.
unfoldable pub on_divider : Fonts → ℕ → Style → PageRenderer → PageRenderer
on_divider fonts ch s p =
    let begun = at_edge (with_depth s p) in
    let noted = if has_glyph fonts ch then begun else note_missing ch begun in
    let dashes =
      divider_calls 67 (left_edge noted) (screen_y noted) (until_nul (divider_bytes ch)) in
    let drawn = if row_visible begun then draw dashes noted else begun in
    record drawn { row_open = true }

-- The rule under a heading that dropped to the body's face.
unfoldable pub heading_rule : ℕ → PageRenderer → List Call
heading_rule depth p =
    let w = u16 ((if leb depth 2 then right_edge else p.x) + 2 ^ 16 - left_edge p) in
    if p.head_rule && p.row_open && row_visible p
    then Call.hline_call (left_edge p) (u16 (screen_y p + height p + 2 ^ 16 - 1)) w true ∷ []
    else []

unfoldable pub on_line_end : Style → PageRenderer → PageRenderer
on_line_end s p =
    let begun = with_depth s p in
    let ruled = record (draw (heading_rule s.depth begun) begun) { head_rule = false } in
    let ended = record (newline ruled) { row_h = 0; big = false; head = 0; bold = false } in
    let gap = if ruled.head == 1 then head_gap_big else para_gap in
    record ended { y = if s.heading then u16 (ended.y + gap) else ended.y; invert = false }

abbrev pub img_mark : Memory
img_mark = string (0x5B ∷ 0x69 ∷ 0x6D ∷ 0x67 ∷ 0x5D ∷ 0x20 ∷ [])

unfoldable pub on_image : Fonts → Image → Style → PageRenderer → PageRenderer
on_image fonts i s p =
    let begun = with_depth s p in
    let marked = emit_run fonts img_mark 6 begun.invert begun in
    if i.alt_len == 0
    then emit_run fonts i.url i.url_len marked.invert marked
    else emit_run fonts i.alt i.alt_len marked.invert marked

abbrev pub plus_mark : Memory
plus_mark = string (0x5B ∷ 0x2B ∷ 0x5D ∷ 0x20 ∷ [])

unfoldable pub on_partial : Fonts → Memory → ℕ → Style → PageRenderer → PageRenderer
on_partial fonts url url_len s p =
    let begun = with_depth s p in
    on_link fonts url url_len url url_len s (emit_run fonts plus_mark 4 begun.invert begun)

-- An anchor has no width and no effect.
unfoldable pub on_anchor : Memory → ℕ → PageRenderer → PageRenderer
on_anchor name len p = p
