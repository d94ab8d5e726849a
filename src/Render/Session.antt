-- ===== src/Render/Session.antt =====
-- A page as the parser reports it: any run of events, from `begin` on.
use thicket_firmware.Base.{
  ℕ, ◌+◌, ◌-◌, ◌≤◌, ◌<◌, ◌≡◌, refl, arith, Bool, true, false, ◌&&◌, ltb, All, Bool-cases, inl, inr,
  u16,
}
use thicket_firmware.Base.Memory.{Memory}
use thicket_firmware.Lcd.Text.{Fonts}
use thicket_firmware.Render.State.{Align, Style, Field, Image, TableState, PageRenderer, begin}
use thicket_firmware.Render.Page.{left_edge, height, line_h, blank_line}
use thicket_firmware.Render.Events.{
  at_edge, with_depth, begin_text, on_text, on_link, on_divider, on_line_end, on_image, on_partial,
  on_anchor,
}
use thicket_firmware.Render.Fields.{is_text, on_field}
use thicket_firmware.Render.Tables.{
  on_table_begin, on_table_row, collect_row, trim_front, trim_back, only_rule,
}
use thicket_firmware.Render.StartsInside.{StartsInside}
use thicket_firmware.Render.Layout.{IsLaidOut, Starts}
use thicket_firmware.Render.Texts.{
  Continues, redepth-IsLaidOut, on_text-IsLaidOut, on_link-IsLaidOut,
}
use thicket_firmware.Render.Steps.{on_divider-IsLaidOut, on_line_end-IsLaidOut}
use thicket_firmware.Render.Inputs.{
  Letters, on_field-IsLaidOut, on_image-IsLaidOut, on_partial-IsLaidOut,
}

-- One event. A style moves the left edge only on a fresh row. A text or a link is preformatted, or
-- begins with a letter or right of the left edge of its open row, as `Starts` says; what follows
-- a mark begins with a letter; a button has room for its cell.
pub data PageEvent (fonts : Fonts) (p : PageRenderer) : PageRenderer → Type 0 where
  text :
      (t : Memory) (n : ℕ) (s : Style)
      → Continues s p
      → Starts t n (begin_text s p)
      → PageEvent fonts p (on_text fonts t n s p)
  link :
      (label : Memory) (label_len : ℕ) (target : Memory) (target_len : ℕ) (s : Style)
      → Continues s p
      → Starts label label_len (with_depth s p)
      → PageEvent fonts p (on_link fonts label label_len target target_len s p)
  divider : (ch : ℕ) (s : Style) → Continues s p → PageEvent fonts p (on_divider fonts ch s p)
  field :
      (f : Field) (s : Style)
      → Continues s p
      → (is_text f.kind ≡ false
          → ((at_edge (with_depth s p)).x + 6 ≤ 398) × Letters f.label f.label_len)
      → PageEvent fonts p (on_field fonts f s p)
  image :
      (i : Image) (s : Style)
      → Continues s p
      → Letters i.alt i.alt_len
      → Letters i.url i.url_len
      → PageEvent fonts p (on_image fonts i s p)
  partial :
      (url : Memory) (url_len : ℕ) (s : Style)
      → Continues s p
      → Letters url url_len
      → PageEvent fonts p (on_partial fonts url url_len s p)
  anchor : (name : Memory) (len : ℕ) → PageEvent fonts p (on_anchor name len p)
  line_end : (s : Style) → Continues s p → PageEvent fonts p (on_line_end s p)
  empty_line : PageEvent fonts p (blank_line p)
  table_begin :
      (align_set : Bool) (align : Align) (s : Style)
      → Continues s p
      → PageEvent fonts p (on_table_begin align_set align s p)
  table_row :
      (row : Memory) (len : ℕ) (s : Style)
      → Continues s p
      → PageEvent fonts p (on_table_row row len s p)

-- The states that events lead to.
pub data PageSession (fonts : Fonts) (p : PageRenderer) : PageRenderer → Type 0 where
  start : PageSession fonts p p
  next : {q r : PageRenderer} → PageSession fonts p q → PageEvent fonts q r → PageSession fonts p r

pub blank_line-IsLaidOut : (p : PageRenderer) → IsLaidOut p → IsLaidOut (blank_line p)
unfolding left_edge
blank_line-IsLaidOut p ok = elim (Bool-cases p.blank_pending) [
  | inl again ↦
      let same : blank_line p ≡ p = unfold blank_line in ground (arith, again) in rw same ok
  | inr first ↦
      let q = record p { y = u16 (p.y + line_h p); blank_pending = true } in
      let below : IsLaidOut q = record {
        row = record { y = omega arith; scroll = ok.row.scroll; tall = ok.row.tall };
        spread = ok.spread;
        pen = ok.pen;
        open_row = ok.open_row;
        inside = ok.inside;
      } in
      let same : blank_line p ≡ q = unfold blank_line in ground (arith, first) in rw same below
]

-- Another state of the table.
tabled-IsLaidOut :
    (s : Style) (t : TableState) (p : PageRenderer)
    → IsLaidOut p
    → Continues s p
    → IsLaidOut (record p { depth = s.depth; table = t })
unfolding left_edge
tabled-IsLaidOut s t p ok deep =
    redepth-IsLaidOut p (record p { depth = s.depth; table = t }) ok deep (refl, refl, refl, refl)
      refl refl refl

table_begin-IsLaidOut :
    (align_set : Bool) (align : Align) (s : Style) (p : PageRenderer)
    → IsLaidOut p
    → Continues s p
    → IsLaidOut (on_table_begin align_set align s p)
unfolding on_table_begin
table_begin-IsLaidOut align_set align s p ok deep = tabled-IsLaidOut s _ p ok deep

table_row-IsLaidOut :
    (row : Memory) (len : ℕ) (s : Style) (p : PageRenderer)
    → IsLaidOut p
    → Continues s p
    → IsLaidOut (on_table_row row len s p)
unfolding on_table_row
table_row-IsLaidOut row len s p ok deep =
    let a = trim_front len row 0 len in
    let b = trim_back len row a len in
    elim (Bool-cases (ltb a b && only_rule (b - a) row a b)) [
      | inl separator ↦ rw separator (tabled-IsLaidOut s p.table p ok deep)
      | inr cells ↦ rw cells (tabled-IsLaidOut s (collect_row row a b p.table) p ok deep)
    ]

PageEvent-IsLaidOut :
    (fonts : Fonts) (p q : PageRenderer) → PageEvent fonts p q → IsLaidOut p → IsLaidOut q
PageEvent-IsLaidOut fonts p _ (PageEvent.text t n s deep fit) ok =
    on_text-IsLaidOut fonts t n s p ok deep fit
PageEvent-IsLaidOut fonts p _ (PageEvent.link label n target m s deep fit) ok =
    on_link-IsLaidOut fonts label n target m s p ok deep fit
PageEvent-IsLaidOut fonts p _ (PageEvent.divider ch s deep) ok =
    on_divider-IsLaidOut fonts ch s p ok deep
PageEvent-IsLaidOut fonts p _ (PageEvent.field f s deep button) ok =
    on_field-IsLaidOut fonts f s p ok deep button
PageEvent-IsLaidOut fonts p _ (PageEvent.image i s deep alt url) ok =
    on_image-IsLaidOut fonts i s p ok deep alt url
PageEvent-IsLaidOut fonts p _ (PageEvent.partial url n s deep letters) ok =
    on_partial-IsLaidOut fonts url n s p ok deep letters
PageEvent-IsLaidOut fonts p _ (PageEvent.anchor name len) ok = unfold on_anchor in ok
PageEvent-IsLaidOut fonts p _ (PageEvent.line_end s deep) ok = on_line_end-IsLaidOut s p ok deep
PageEvent-IsLaidOut fonts p _ PageEvent.empty_line ok = blank_line-IsLaidOut p ok
PageEvent-IsLaidOut fonts p _ (PageEvent.table_begin given align s deep) ok =
    table_begin-IsLaidOut given align s p ok deep
PageEvent-IsLaidOut fonts p _ (PageEvent.table_row row len s deep) ok =
    table_row-IsLaidOut row len s p ok deep

pub begin-IsLaidOut :
    (scroll_y : ℕ) (p : PageRenderer)
    → scroll_y < 65536
    → p.leading < 256
    → height p < 65000
    → All StartsInside p.calls
    → IsLaidOut (begin scroll_y p)
unfolding begin left_edge
begin-IsLaidOut scroll_y p scroll spread tall inside = record {
  row = record { y = omega arith; scroll = scroll; tall = tall };
  spread = spread;
  pen = omega arith;
  open_row = λ h. absurd (ground (arith, h));
  inside = inside;
}

pub Session-keeps :
    (fonts : Fonts) (p q : PageRenderer) → PageSession fonts p q → IsLaidOut p → IsLaidOut q
Session-keeps fonts p _ PageSession.start ok = ok
Session-keeps fonts p _ (PageSession.next {q} {r} before event) ok =
    PageEvent-IsLaidOut fonts q r event (Session-keeps fonts p q before ok)

-- From `begin` on, at a scroll offset of 16 bits, with a leading of a byte, rows below 65000 pixels
-- and only such calls so far: after any texts, links, dividers, fields, images,
-- partials, anchors, line ends, blank lines and collected rows of tables, under the conditions of
-- `PageEvent`, the pen is left of the right margin and, on an open row, not left of the left edge.
-- Every rectangle, texture and line that the display is asked for ends left of the right margin;
-- every text starts where one cell of its face has room before the margin, whatever its bytes are;
-- every rectangle, texture and text begins on the panel, and every rectangle's bottom edge fits 16
-- bits.
pub Session-IsLaidOut :
    (fonts : Fonts) (scroll_y : ℕ) (p q : PageRenderer)
    → scroll_y < 65536
    → p.leading < 256
    → height p < 65000
    → All StartsInside p.calls
    → PageSession fonts (begin scroll_y p) q
    → (q.x ≤ 398) × (q.row_open ≡ true → left_edge q ≤ q.x) × All StartsInside q.calls
Session-IsLaidOut fonts scroll_y p q scroll spread tall inside run =
    let ok =
      Session-keeps fonts (begin scroll_y p) q run
        (begin-IsLaidOut scroll_y p scroll spread tall inside) in
    (ok.pen, ok.open_row, ok.inside)
