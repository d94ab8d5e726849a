-- ===== src/Render/Inputs.antt =====
-- Fields, images and partials keep a page that is laid out well.
use thicket_firmware.Base.{
  ℕ, zero, suc, ◌+◌, ◌-◌, ◌*◌, ◌^◌, ◌≤◌, ◌<◌, ◌≡◌, refl, sym, ◌∙◌, arith, Bool, true, false, ◌&&◌,
  ltb, leb, ◌==◌, if◌then◌else◌, u16, List, [], ◌∷◌, All, All-append, Bool-cases, inl, inr,
}
use thicket_firmware.Base.Memory.{Memory}
use thicket_firmware.Lcd.Text.{Fonts}
use thicket_firmware.Render.State.{Call, Style, PageRenderer, Field, FieldKind, Image}
use thicket_firmware.Render.Page.{left_edge, height, row_visible, screen_y}
use thicket_firmware.Render.Faces.{draw}
use thicket_firmware.Render.Run.{is_space, emit_run}
use thicket_firmware.Render.Events.{at_edge, with_depth, on_image, on_partial, img_mark, plus_mark}
use thicket_firmware.Render.Fields.{
  field_bar, field_cell, field_loop, text_field, button_calls, blank, button_cell, button_field,
  is_text, on_field,
}
use thicket_firmware.Render.StartsInside.{StartsInside}
use thicket_firmware.Render.Window.{row_visible-screen_y}
use thicket_firmware.Render.Wrapping.{paint_bg-StartsInside}
use thicket_firmware.Render.Layout.{IsLaidOut, emit_run-IsLaidOut, emit_run-keeps}
use thicket_firmware.Render.Texts.{Continues, on_link-IsLaidOut}
use thicket_firmware.Render.Steps.{begun-IsLaidOut, at_edge-IsLaidOut, at_edge-x}

-- More calls on an open or a fresh row.
told-IsLaidOut :
    (cs : List Call) (p : PageRenderer) → IsLaidOut p → All StartsInside cs → IsLaidOut (draw cs p)
unfolding left_edge
told-IsLaidOut cs p ok more = record {
  row = record { y = ok.row.y; scroll = ok.row.scroll; tall = ok.row.tall };
  spread = ok.spread;
  pen = ok.pen;
  open_row = ok.open_row;
  inside = All-append StartsInside p.calls cs ok.inside more;
}

-- A cell further, where it fits.
cell-IsLaidOut :
    (p : PageRenderer)
    → IsLaidOut p
    → left_edge p ≤ p.x
    → p.x + 6 ≤ 398
    → IsLaidOut (record p { x = u16 (p.x + 6); row_open = true })
unfolding left_edge
cell-IsLaidOut p ok edge fits = record {
  row = record { y = ok.row.y; scroll = ok.row.scroll; tall = ok.row.tall };
  spread = ok.spread;
  pen = omega (arith, fits);
  open_row = λ _. omega (arith, edge, fits);
  inside = ok.inside;
}

one_of :
    (b : Bool) (cs ds : List Call)
    → All StartsInside cs
    → All StartsInside ds
    → All StartsInside (if b then cs else ds)
one_of true cs ds h k = h
one_of false cs ds h k = k

field_bar-StartsInside :
    (w : ℕ) (has_bg : Bool) (luma : ℕ) (p : PageRenderer)
    → IsLaidOut p
    → All StartsInside (field_bar w has_bg luma p)
unfolding field_bar StartsInside
field_bar-StartsInside w has_bg luma p ok =
    let room = u16 (if leb (p.x + w * 6) 398 then w * 6 else 398 + 2 ^ 16 - p.x) in
    let fits : p.x + room ≤ 398 = ground (arith, ok.pen) in
    elim (Bool-cases (row_visible p)) [
      | inr hidden ↦ rw hidden tt
      | inl seen ↦
          let place = row_visible-screen_y p ok.row.y ok.row.scroll seen in
          let solid : All StartsInside (Call.rect_call p.x (screen_y p) room (height p) true ∷ []) =
            ((fits, place.1, omega (arith, place.1, ok.row.tall)), tt) in
          let light = paint_bg-StartsInside p.x room luma p ok.row fits in
          rw seen (one_of (has_bg && ltb luma 128) _ _ solid (one_of has_bg _ _ light tt))
    ]

field_cell-StartsInside :
    (f : Field) (has_bg ink_black : Bool) (vk : ℕ) (p : PageRenderer)
    → IsLaidOut p
    → p.x + 6 ≤ 398
    → All StartsInside (field_cell f has_bg ink_black vk p)
unfolding field_cell StartsInside
field_cell-StartsInside f has_bg ink_black vk p ok fits = elim (Bool-cases (row_visible p)) [
  | inr hidden ↦ rw hidden tt
  | inl seen ↦
      let place = row_visible-screen_y p ok.row.y ok.row.scroll seen in
      elim (Bool-cases (ltb vk f.value_len)) [
        | inl more ↦ rw (seen, more) ((fits, place.1), tt)
        | inr ended ↦ elim (Bool-cases has_bg) [
          | inl bar ↦ simp (seen, ended, bar) tt
          | inr slot ↦ simp (seen, ended, slot) ((fits, place.1), tt)
        ]
      ]
]

field_loop-IsLaidOut :
    (left : ℕ) (f : Field) (has_bg ink_black : Bool) (vk : ℕ) (p : PageRenderer)
    → IsLaidOut p
    → left_edge p ≤ p.x
    → IsLaidOut (field_loop left f has_bg ink_black vk p)
unfolding field_loop
field_loop-IsLaidOut zero f has_bg ink_black vk p ok edge = ok
field_loop-IsLaidOut (suc left) f has_bg ink_black vk p ok edge =
    elim (Bool-cases (ltb 398 (p.x + 6))) [
      | inl full ↦ rw full ok
      | inr room ↦
          let fits : p.x + 6 ≤ 398 = ground (arith, room) in
          let cs = field_cell f has_bg ink_black vk p in
          let told =
            told-IsLaidOut cs p ok (field_cell-StartsInside f has_bg ink_black vk p ok fits) in
          let same : left_edge (draw cs p) ≡ left_edge p = unfold left_edge in refl in
          let next = cell-IsLaidOut (draw cs p) told (omega (arith, same, edge)) fits in
          rw room (
            field_loop-IsLaidOut left f has_bg ink_black _ _ next
              (omega (arith, edge, same, next.open_row refl)))
    ]

text_field-IsLaidOut :
    (f : Field) (s : Style) (p : PageRenderer)
    → IsLaidOut p
    → left_edge p ≤ p.x
    → IsLaidOut (text_field f s p)
unfolding text_field left_edge
text_field-IsLaidOut f s p ok edge =
    field_loop-IsLaidOut _ f _ _ 0 _ (told-IsLaidOut _ p ok (field_bar-StartsInside _ _ _ p ok))
      edge

button_calls-StartsInside :
    (kind : FieldKind) (prechecked : Bool) (p : PageRenderer)
    → p.x + 6 ≤ 398
    → screen_y p < 240
    → All StartsInside (button_calls kind prechecked p)
unfolding button_calls StartsInside
button_calls-StartsInside FieldKind.radio prechecked p fits low = ((fits, low), tt)
button_calls-StartsInside FieldKind.text true p fits low = ((fits, low), ((fits, low), tt))
button_calls-StartsInside FieldKind.text false p fits low = ((fits, low), tt)
button_calls-StartsInside FieldKind.checkbox true p fits low = ((fits, low), ((fits, low), tt))
button_calls-StartsInside FieldKind.checkbox false p fits low = ((fits, low), tt)

-- A text that begins with a letter, and is of at most 5458 bytes.
abbrev pub Letters : Memory → ℕ → Type 0
Letters t n = (n ≤ 5458) × (0 < n → is_space (t 0) ≡ false)

-- Where the cell of a button fits, the pen is right of the left edge after it.
button_cell-IsLaidOut :
    (f : Field) (p : PageRenderer)
    → IsLaidOut p
    → left_edge p ≤ p.x
    → p.x + 6 ≤ 398
    → let q = button_cell f p in IsLaidOut q × (q.row_open ≡ true) × (left_edge q < q.x)
unfolding button_cell left_edge
button_cell-IsLaidOut f p ok edge fits =
    let cs = button_calls f.kind f.prechecked p in
    let further : left_edge p < u16 (p.x + 6) = omega (arith, edge, fits) in
    elim (Bool-cases (row_visible p)) [
      | inr hidden ↦ rw hidden (cell-IsLaidOut p ok edge fits, refl, further)
      | inl seen ↦
          let low = (row_visible-screen_y p ok.row.y ok.row.scroll seen).1 in
          let told =
            told-IsLaidOut cs p ok (button_calls-StartsInside f.kind f.prechecked p fits low) in
          rw seen (cell-IsLaidOut (draw cs p) told edge fits, refl, further)
    ]

button_field-IsLaidOut :
    (fonts : Fonts) (f : Field) (p : PageRenderer)
    → IsLaidOut p
    → left_edge p ≤ p.x
    → p.x + 6 ≤ 398
    → Letters f.label f.label_len
    → IsLaidOut (button_field fonts f p)
unfolding button_field
button_field-IsLaidOut fonts f p ok edge fits label =
    let q = button_cell f p in
    let (next, already, further) = button_cell-IsLaidOut f p ok edge fits in
    let spaced =
      emit_run-IsLaidOut fonts blank 1 q.invert q next
        (inr (omega arith, inr (already, further))) in
    elim (Bool-cases (f.label_len == 0)) [
      | inl bare ↦ rw bare next
      | inr labelled ↦
          rw labelled
            (emit_run-IsLaidOut fonts f.label f.label_len _ _ spaced (inr (label.0, inl label.1)))
    ]

pub on_field-IsLaidOut :
    (fonts : Fonts) (f : Field) (s : Style) (p : PageRenderer)
    → IsLaidOut p
    → Continues s p
    → (is_text f.kind ≡ false
        → ((at_edge (with_depth s p)).x + 6 ≤ 398) × Letters f.label f.label_len)
    → IsLaidOut (on_field fonts f s p)
unfolding on_field
on_field-IsLaidOut fonts f s p ok deep button =
    let begun = begun-IsLaidOut s p ok deep in
    let q = at_edge (with_depth s p) in
    let placed = at_edge-IsLaidOut (with_depth s p) begun in
    let edge = at_edge-x (with_depth s p) begun in
    elim (Bool-cases (is_text f.kind)) [
      | inl text ↦ rw text (text_field-IsLaidOut f s q placed edge)
      | inr other ↦
          let (fits, label) = button other in
          rw other (button_field-IsLaidOut fonts f q placed edge fits label)
    ]

pub on_image-IsLaidOut :
    (fonts : Fonts) (i : Image) (s : Style) (p : PageRenderer)
    → IsLaidOut p
    → Continues s p
    → Letters i.alt i.alt_len
    → Letters i.url i.url_len
    → IsLaidOut (on_image fonts i s p)
unfolding on_image
on_image-IsLaidOut fonts i s p ok deep alt url =
    let begun = begun-IsLaidOut s p ok deep in
    let q = with_depth s p in
    let marked =
      emit_run-IsLaidOut fonts img_mark 6 q.invert q begun
        (inr (omega arith, inl (λ _. unfold is_space in refl))) in
    elim (Bool-cases (i.alt_len == 0)) [
      | inl none_there ↦
          rw none_there
            (emit_run-IsLaidOut fonts i.url i.url_len _ _ marked (inr (url.0, inl url.1)))
      | inr some_there ↦
          rw some_there
            (emit_run-IsLaidOut fonts i.alt i.alt_len _ _ marked (inr (alt.0, inl alt.1)))
    ]

pub on_partial-IsLaidOut :
    (fonts : Fonts) (url : Memory) (url_len : ℕ) (s : Style) (p : PageRenderer)
    → IsLaidOut p
    → Continues s p
    → Letters url url_len
    → IsLaidOut (on_partial fonts url url_len s p)
unfolding on_partial
on_partial-IsLaidOut fonts url url_len s p ok deep letters =
    let begun = begun-IsLaidOut s p ok deep in
    let q = with_depth s p in
    let (marked, edge) =
      emit_run-keeps fonts plus_mark 4 q.invert q begun
        (inr (omega arith, inl (λ _. unfold is_space in refl))) in
    let same : left_edge (with_depth s (emit_run fonts plus_mark 4 q.invert q)) ≡ left_edge q =
      unfold left_edge in refl in
    on_link-IsLaidOut fonts url url_len url url_len s (emit_run fonts plus_mark 4 q.invert q) marked
      (λ _. same ∙ sym edge) (inr (letters.0, inl letters.1))
