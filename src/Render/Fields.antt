-- ===== src/Render/Fields.antt =====
-- lib/MicronRender/src/MicronRender.cpp: `onField`.
use thicket_firmware.Base.{
  ℕ, zero, suc, ◌+◌, ◌-◌, ◌*◌, ◌^◌, Bool, true, false, not, ◌&&◌, List, [], ◌∷◌, ltb, leb, ◌==◌,
  if◌then◌else◌, u16,
}
use thicket_firmware.Base.Memory.{Memory}
use thicket_firmware.Lcd.Text.{Fonts}
use thicket_firmware.Render.State.{Call, Style, FieldKind, Field, PageRenderer, string}
use thicket_firmware.Render.Page.{
  font_advance, right_edge, seq_len, glyph, height, row_visible, screen_y,
}
use thicket_firmware.Render.Ink.{luma_of}
use thicket_firmware.Render.Faces.{paint_bg, draw}
use thicket_firmware.Render.Run.{emit_run}
use thicket_firmware.Render.Events.{at_edge, with_depth}

-- The bar of a text field of `w` cells: solid where the page's background is dark.
unfoldable pub field_bar : ℕ → Bool → ℕ → PageRenderer → List Call
field_bar w has_bg luma p =
    let room =
      if leb (p.x + w * font_advance) right_edge
      then w * font_advance
      else right_edge + 2 ^ 16 - p.x in
    let solid = Call.rect_call p.x (screen_y p) (u16 room) (height p) true in
    if row_visible p
    then (if has_bg && ltb luma 128
        then solid ∷ []
        else (if has_bg then paint_bg p.x (u16 room) luma p else []))
    else []

-- What is drawn in a cell of a text field: a byte sequence of the value or its mask, or the slot.
unfoldable pub field_cell : Field → Bool → Bool → ℕ → PageRenderer → List Call
field_cell f has_bg ink_black vk p =
    let drawn = if f.masked then 0x2A ∷ [] else glyph f.value vk in
    if row_visible p
    then (if ltb vk f.value_len
        then Call.text_call p.x (screen_y p) drawn ink_black ∷ []
        else (if has_bg then [] else Call.text_call p.x (screen_y p) (0x5F ∷ []) true ∷ []))
    else []

-- The columns that are left of a text field; `vk` is the place in its value.
unfoldable pub field_loop : ℕ → Field → Bool → Bool → ℕ → PageRenderer → PageRenderer
field_loop zero f has_bg ink_black vk p = p
field_loop (suc left) f has_bg ink_black vk p =
    let drawn = draw (field_cell f has_bg ink_black vk p) p in
    let next = record drawn { x = u16 (drawn.x + font_advance); row_open = true } in
    let vk' = if ltb vk f.value_len then vk + seq_len (f.value vk) else vk in
    let rest = field_loop left f has_bg ink_black vk' next in
    if ltb right_edge (p.x + font_advance) then p else rest

unfoldable pub text_field : Field → Style → PageRenderer → PageRenderer
text_field f s p =
    let w = if f.width == 0 then 1 else f.width in
    let has_bg = not s.bg.is_default && s.bg.is_valid in
    let luma = if has_bg then luma_of s.bg else 255 in
    field_loop w f has_bg (not (has_bg && ltb luma 128)) 0 (draw (field_bar w has_bg luma p) p)

-- A circle for a radio button, a box with its check over it for a checkbox.
unfoldable pub button_calls : FieldKind → Bool → PageRenderer → List Call
button_calls FieldKind.radio prechecked p =
    let circle = if prechecked then 0xE2 ∷ 0x97 ∷ 0x8F ∷ [] else 0xE2 ∷ 0x97 ∷ 0x8B ∷ [] in
    Call.text_call p.x (screen_y p) circle (not p.invert) ∷ []
button_calls kind prechecked p =
    let check = Call.text_call p.x (screen_y p) (0xE2 ∷ 0x9C ∷ 0x93 ∷ []) (not p.invert) in
    Call.text_call p.x (screen_y p) (0xE2 ∷ 0x96 ∷ 0xA1 ∷ []) (not p.invert)
    ∷ (if prechecked then check ∷ [] else [])

abbrev pub blank : Memory
blank = string (0x20 ∷ [])

-- The cell of a button.
unfoldable pub button_cell : Field → PageRenderer → PageRenderer
button_cell f p =
    let drawn = if row_visible p then draw (button_calls f.kind f.prechecked p) p else p in
    record drawn { x = u16 (drawn.x + font_advance); row_open = true }

unfoldable pub button_field : Fonts → Field → PageRenderer → PageRenderer
button_field fonts f p =
    let next = button_cell f p in
    let spaced = emit_run fonts blank 1 next.invert next in
    if f.label_len == 0 then next else emit_run fonts f.label f.label_len spaced.invert spaced

unfoldable pub is_text : FieldKind → Bool
is_text FieldKind.text = true
is_text FieldKind.radio = false
is_text FieldKind.checkbox = false

unfoldable pub on_field : Fonts → Field → Style → PageRenderer → PageRenderer
on_field fonts f s p =
    let begun = at_edge (with_depth s p) in
    if is_text f.kind then text_field f s begun else button_field fonts f begun
