-- ===== src/Render/Faces.antt =====
-- lib/MicronRender/src/MicronRender.cpp: the face of a row, one glyph in it, and the background of
-- a run. What these ask of the display is returned; the display never answers the renderer.
use thicket_firmware.Base.{
  ℕ, Bool, true, false, ◌&&◌, ◌||◌, List, [], ◌∷◌, ◌++◌, Option, none, some, ltb, ◌==◌,
  if◌then◌else◌,
}
use thicket_firmware.Lcd.Text.{Fonts, find, glyph_for, big_font_w}
use thicket_firmware.Lcd.TextCalls.{BoldFace, bold_w, bold_table}
use thicket_firmware.Render.State.{Call, PageRenderer}
use thicket_firmware.Render.Page.{font_advance, height, row_visible, screen_y, note_missing}

abbrev pub is_some : {A : Type 0} → Option A → Bool
is_some none = false
is_some (some _) = true

unfoldable pub has_glyph : Fonts → ℕ → Bool
has_glyph fonts cp = is_some (glyph_for fonts cp)

unfoldable pub big_has : Fonts → ℕ → Bool
big_has fonts cp = is_some (find fonts.big cp)

unfoldable pub bold_has : Fonts → ℕ → BoldFace → Bool
bold_has fonts cp face = is_some (find (bold_table fonts face) cp)

unfoldable pub head_bold_face : ℕ → BoldFace
head_bold_face head = if head == 2 then BoldFace.bold_h2 else BoldFace.bold_h3

unfoldable pub advance : PageRenderer → ℕ
advance p =
    if p.head == 1
    then big_font_w
    else if p.head == 2 || p.head == 3
    then bold_w (head_bold_face p.head)
    else if p.bold
    then bold_w BoldFace.bold_inline
    else font_advance

unfoldable pub face_has : Fonts → ℕ → PageRenderer → Bool
face_has fonts cp p =
    if p.head == 1
    then big_has fonts cp
    else if p.head == 2 || p.head == 3
    then bold_has fonts cp (head_bold_face p.head)
    else has_glyph fonts cp

unfoldable pub note_face : Fonts → ℕ → PageRenderer → PageRenderer
note_face fonts cp p = if face_has fonts cp p then p else note_missing cp p

-- The call that draws a glyph in the row's face, and the advance that is returned.
unfoldable pub draw_glyph : Fonts → ℕ → ℕ → List ℕ → ℕ → Bool → PageRenderer → Call × ℕ
draw_glyph fonts x y g cp black p =
    if p.head == 1
    then (Call.big_call x y g black, big_font_w)
    else if p.head == 2 || p.head == 3
    then (Call.bold_call x y g (head_bold_face p.head) black, bold_w (head_bold_face p.head))
    else if p.bold && bold_has fonts cp BoldFace.bold_inline
    then (Call.bold_call x y g BoldFace.bold_inline black, bold_w BoldFace.bold_inline)
    else (Call.text_call x y g black, font_advance)

unfoldable pub paint_bg : ℕ → ℕ → ℕ → PageRenderer → List Call
paint_bg x w luma p =
    if row_visible p
    then (if p.dither
        then Call.dither_call x (screen_y p) w (height p) luma ∷ []
        else (if ltb luma 128 then Call.rect_call x (screen_y p) w (height p) true ∷ [] else []))
    else []

abbrev pub draw : List Call → PageRenderer → PageRenderer
draw cs p = record p { calls = p.calls ++ cs }
