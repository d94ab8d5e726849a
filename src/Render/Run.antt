-- ===== src/Render/Run.antt =====
-- lib/MicronRender/src/MicronRender.cpp: `emit_run`, prose wrapped at its words. Each loop is by
-- the rounds left; every round takes a byte or more.
use thicket_firmware.Base.{
  ℕ, zero, suc, ◌+◌, ◌-◌, ◌*◌, ◌^◌, Bool, true, not, ◌&&◌, ◌||◌, List, [], ◌∷◌, ◌++◌, ltb, ◌==◌,
  if◌then◌else◌, u16,
}
use thicket_firmware.Base.Memory.{Memory}
use thicket_firmware.Lcd.Text.{Fonts}
use thicket_firmware.Lcd.SharpLcd.{lcd_width}
use thicket_firmware.Render.State.{Call, PageRenderer}
use thicket_firmware.Render.Page.{
  margin_x, right_edge, seq_len, cells, glyph, glyph_cp, height, left_edge, row_visible, screen_y,
  newline, wrap_if_needed, emit_literal,
}
use thicket_firmware.Render.Faces.{advance, note_face, draw_glyph, paint_bg, draw}

abbrev pub content_w : ℕ
content_w = lcd_width - 2 * margin_x

unfoldable pub is_space : ℕ → Bool
is_space c = c == 0x20 || c == 0x09

abbrev pub from : Memory → ℕ → Memory
from t k i = t (k + i)

unfoldable pub skip_spaces : ℕ → Memory → ℕ → ℕ → ℕ
skip_spaces zero t n sp = sp
skip_spaces (suc left) t n sp =
    let rest = skip_spaces left t n (sp + 1) in if ltb sp n && is_space (t sp) then rest else sp

unfoldable pub word_end : ℕ → Memory → ℕ → ℕ → ℕ
word_end zero t n w = w
word_end (suc left) t n w =
    let rest = word_end left t n (w + seq_len (t w)) in
    if ltb w n && not (is_space (t w)) then rest else w

-- One glyph of a token that is broken at the margin.
unfoldable pub hard_glyph : Fonts → Memory → Bool → ℕ → PageRenderer → PageRenderer
hard_glyph fonts t invert k p =
    let q = note_face fonts (glyph_cp t k) (wrap_if_needed (advance p) p) in
    let drawn = draw_glyph fonts q.x (screen_y q) (glyph t k) (glyph_cp t k) (not invert) q in
    record (draw (if row_visible q then drawn.0 ∷ [] else []) q) {
      x = u16 (q.x + advance q);
      row_open = true;
    }

unfoldable pub hard_loop : ℕ → Fonts → Memory → ℕ → Bool → ℕ → PageRenderer → PageRenderer
hard_loop zero fonts t w invert k p = p
hard_loop (suc left) fonts t w invert k p =
    let rest =
      hard_loop left fonts t w invert (k + seq_len (t k)) (hard_glyph fonts t invert k p) in
    if ltb k w then rest else p

-- The rule under a piece of an underlined run.
unfoldable pub underline_calls : ℕ → ℕ → Bool → PageRenderer → List Call
underline_calls x w invert p =
    if p.underline && row_visible p
    then Call.hline_call x (u16 (screen_y p + height p + 2 ^ 16 - 2)) w (not invert) ∷ []
    else []

-- The spaces in front of a word: they are dropped where the word goes to a new row.
unfoldable pub lead : ℕ → ℕ → Bool → PageRenderer → PageRenderer
lead lead_w word_w invert p =
    let drawn =
      draw
        ((if p.has_bg then paint_bg p.x lead_w p.bg_luma p else [])
          ++ underline_calls p.x lead_w invert p)
        p in
    let spaced = record drawn { x = u16 (p.x + lead_w); row_open = true } in
    if ltb right_edge (p.x + lead_w + word_w) && ltb (left_edge p) p.x
    then newline p
    else if lead_w == 0
    then p
    else spaced

-- What is under a cell of a word: the texture of a blank, a knockout under a glyph.
unfoldable pub cell_calls : Bool → Bool → PageRenderer → List Call
cell_calls blank invert p =
    let box = Call.rect_call p.x (screen_y p) (advance p) (height p) in
    if p.has_bg
    then (if blank then paint_bg p.x (advance p) p.bg_luma p else box invert ∷ [])
    else if invert
    then box true ∷ []
    else []

-- What one glyph of a word asks of the display.
unfoldable pub word_calls : Fonts → Memory → Bool → ℕ → PageRenderer → List Call
word_calls fonts t invert k p =
    let blank = seq_len (t k) == 1 && is_space (t k) in
    let drawn = draw_glyph fonts p.x (screen_y p) (glyph t k) (glyph_cp t k) (not invert) p in
    if row_visible p
    then cell_calls blank invert p
      ++ (if blank then [] else drawn.0 ∷ [])
      ++ underline_calls p.x (advance p) invert p
    else []

unfoldable pub word_glyph : Fonts → Memory → Bool → ℕ → PageRenderer → PageRenderer
word_glyph fonts t invert k p =
    let q = note_face fonts (glyph_cp t k) p in
    record (draw (word_calls fonts t invert k q) q) { x = u16 (q.x + advance q); row_open = true }

unfoldable pub word_loop : ℕ → Fonts → Memory → ℕ → Bool → ℕ → PageRenderer → PageRenderer
word_loop zero fonts t w invert k p = p
word_loop (suc left) fonts t w invert k p =
    let rest =
      word_loop left fonts t w invert (k + seq_len (t k)) (word_glyph fonts t invert k p) in
    if ltb k w then rest else p

-- A word with the spaces in front of it: its first letter, and its end.
abbrev pub word_start : Memory → ℕ → ℕ → ℕ
word_start t n i = skip_spaces (n - i) t n i

abbrev pub word_stop : Memory → ℕ → ℕ → ℕ
word_stop t n i = word_end (n - word_start t n i) t n (word_start t n i)

-- One round of the walk over the words: the word at `i`, with the spaces in front of it.
unfoldable pub emit_word : Fonts → Memory → ℕ → Bool → ℕ → PageRenderer → PageRenderer
emit_word fonts t n invert i p =
    let sp = word_start t n i in
    let w = word_stop t n i in
    let lead_w = u16 ((sp - i) * advance p) in
    let word_w = u16 (cells (from t sp) (w - sp) * advance p) in
    if ltb (content_w - (left_edge p - margin_x)) word_w
    then hard_loop (w - i) fonts t w invert i p
    else word_loop (w - sp) fonts t w invert sp (lead lead_w word_w invert p)

unfoldable pub run_loop : ℕ → Fonts → Memory → ℕ → Bool → ℕ → PageRenderer → PageRenderer
run_loop zero fonts t n invert i p = p
run_loop (suc left) fonts t n invert i p =
    let rest = run_loop left fonts t n invert (word_stop t n i) (emit_word fonts t n invert i p) in
    if ltb i n then rest else p

-- A pen that is left of the edge of a fresh row is pulled to the edge.
unfoldable pub guarded : PageRenderer → PageRenderer
guarded p = if not p.row_open && ltb p.x (left_edge p) then record p { x = left_edge p } else p

unfoldable pub emit_run : Fonts → Memory → ℕ → Bool → PageRenderer → PageRenderer
emit_run fonts t n invert p =
    let prose = run_loop n fonts t n invert 0 (guarded p) in
    if p.literal then emit_literal fonts t n invert p else prose
