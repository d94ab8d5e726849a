-- ===== src/Render/Steps.antt =====
-- Dividers, line ends and fields keep a page that is laid out well.
use thicket_firmware.Base.{
  ℕ, zero, suc, ◌+◌, ◌≤◌, ◌<◌, ◌≡◌, refl, arith, Bool, true, false, ◌&&◌, leb, if◌then◌else◌, u16,
  List, ◌++◌, All, All-append, Bool-cases, inl, inr,
}
use thicket_firmware.Lcd.Text.{Fonts}
use thicket_firmware.Render.State.{Call, Style, PageRenderer}
use thicket_firmware.Render.Page.{left_edge, row_visible, screen_y, newline, until_nul}
use thicket_firmware.Render.Faces.{draw, has_glyph}
use thicket_firmware.Render.Events.{
  at_edge, with_depth, divider_bytes, divider_calls, on_divider, heading_rule, on_line_end,
}
use thicket_firmware.Render.StartsInside.{StartsInside}
use thicket_firmware.Render.Window.{left_edge-le, row_visible-screen_y}
use thicket_firmware.Render.Page.{note_missing}
use thicket_firmware.Render.Layout.{IsLaidOut}
use thicket_firmware.Render.Ready.{IsReady, IsLaidOut-same, at_edge-IsReady}
use thicket_firmware.Render.Texts.{Continues, redepth-IsLaidOut}
use thicket_firmware.Render.Wrapping.{counted, note_missing-counted}

divider_calls-StartsInside :
    (left x y : ℕ) (g : List ℕ) → y < 240 → All StartsInside (divider_calls left x y g)
unfolding divider_calls StartsInside
divider_calls-StartsInside zero x y g low = tt
divider_calls-StartsInside (suc left) x y g low = elim (Bool-cases (leb (x + 6) 398)) [
  | inr full ↦ rw full tt
  | inl room ↦
      rw room ((ground (arith, room), low), divider_calls-StartsInside left (u16 (x + 6)) y g low)
]

pub at_edge-IsLaidOut : (p : PageRenderer) → IsLaidOut p → IsLaidOut (at_edge p)
at_edge-IsLaidOut p ok =
    let ready : IsReady (λ i. 0) 0 p = record {
      laid_out = ok;
      starts = inr (omega arith, inl (λ h. absurd (omega arith)));
    } in
    (at_edge-IsReady (λ i. 0) 0 p ready).laid_out

opened-IsLaidOut :
    (p : PageRenderer) → IsLaidOut p → left_edge p ≤ p.x → IsLaidOut (record p { row_open = true })
unfolding left_edge
opened-IsLaidOut p ok edge = record {
  row = record { y = ok.row.y; scroll = ok.row.scroll; tall = ok.row.tall };
  spread = ok.spread;
  pen = ok.pen;
  open_row = λ _. edge;
  inside = ok.inside;
}

-- An open row with more calls.
pub drawn-IsLaidOut :
    (cs : List Call) (p : PageRenderer)
    → IsLaidOut p
    → left_edge p ≤ p.x
    → All StartsInside cs
    → IsLaidOut (record (draw cs p) { row_open = true })
unfolding left_edge
drawn-IsLaidOut cs p ok edge more = record {
  row = record { y = ok.row.y; scroll = ok.row.scroll; tall = ok.row.tall };
  spread = ok.spread;
  pen = ok.pen;
  open_row = λ _. edge;
  inside = All-append StartsInside p.calls cs ok.inside more;
}

pub at_edge-x : (p : PageRenderer) → IsLaidOut p → left_edge (at_edge p) ≤ (at_edge p).x
unfolding at_edge left_edge
at_edge-x p ok = elim (Bool-cases p.row_open) [
  | inl already ↦ simp already (ok.open_row already)
  | inr fresh ↦ simp fresh (omega arith)
]

pub begun-IsLaidOut :
    (s : Style) (p : PageRenderer) → IsLaidOut p → Continues s p → IsLaidOut (with_depth s p)
begun-IsLaidOut s p ok deep =
    redepth-IsLaidOut p (with_depth s p) ok deep (refl, refl, refl, refl) refl refl refl

-- A divider, once its row has begun.
divided-IsLaidOut :
    (fonts : Fonts) (ch : ℕ) (p : PageRenderer)
    → IsLaidOut p
    → left_edge p ≤ p.x
    → row_visible p ≡ true
    → let noted = if has_glyph fonts ch then p else note_missing ch p in
      IsLaidOut
        (record (draw
          (divider_calls 67 (left_edge noted) (screen_y noted) (until_nul (divider_bytes ch)))
          noted) { row_open = true })
unfolding left_edge screen_y
divided-IsLaidOut fonts ch p ok edge seen =
    let low = (row_visible-screen_y p ok.row.y ok.row.scroll seen).1 in
    let g = until_nul (divider_bytes ch) in
    let dashes = divider_calls-StartsInside 67 (left_edge p) (screen_y p) g low in
    elim (Bool-cases (has_glyph fonts ch)) [
      | inl there ↦ rw there (drawn-IsLaidOut _ p ok edge dashes)
      | inr hole ↦
          let (ms, total, over, e) = note_missing-counted ch p in
          let same =
            IsLaidOut-same p (counted ms total over p) ok (refl, refl, refl, refl, refl) refl refl
              refl in
          rw (hole, e) (drawn-IsLaidOut _ (counted ms total over p) same edge dashes)
    ]

pub on_divider-IsLaidOut :
    (fonts : Fonts) (ch : ℕ) (s : Style) (p : PageRenderer)
    → IsLaidOut p
    → Continues s p
    → IsLaidOut (on_divider fonts ch s p)
unfolding on_divider
on_divider-IsLaidOut fonts ch s p ok deep =
    let begun = begun-IsLaidOut s p ok deep in
    let q = at_edge (with_depth s p) in
    let edge = at_edge-x (with_depth s p) begun in
    let placed = at_edge-IsLaidOut (with_depth s p) begun in
    elim (Bool-cases (row_visible q)) [
      | inl seen ↦ rw seen (divided-IsLaidOut fonts ch q placed edge seen)
      | inr hidden ↦ rw hidden (opened-IsLaidOut q placed edge)
    ]

heading_rule-StartsInside :
    (depth : ℕ) (p : PageRenderer) → IsLaidOut p → All StartsInside (heading_rule depth p)
unfolding heading_rule StartsInside
heading_rule-StartsInside depth p ok =
    let le = left_edge-le p in
    elim (Bool-cases (p.head_rule && p.row_open && row_visible p)) [
      | inr plain ↦ rw plain tt
      | inl ruled ↦
          let already : p.row_open ≡ true = ground (arith, ruled) in
          elim (Bool-cases (leb depth 2)) [
            | inl full ↦ simp (ruled, full) (omega (arith, le), tt)
            | inr short ↦ simp (ruled, short) (omega (arith, le, ok.pen, ok.open_row already), tt)
          ]
    ]

-- A row that has ended is fresh, of body height and at its left edge.
ended-IsLaidOut :
    (y : ℕ) (big bold head_rule invert : Bool) (head : ℕ) (cs : List Call) (p : PageRenderer)
    → IsLaidOut p
    → All StartsInside cs
    → y < 65536
    → IsLaidOut (record p {
      y = y;
      x = left_edge p;
      row_open = false;
      row_h = 0;
      big = big;
      bold = bold;
      head_rule = head_rule;
      invert = invert;
      head = head;
      calls = p.calls ++ cs;
    })
unfolding left_edge
ended-IsLaidOut y big bold head_rule invert head cs p ok more low = record {
  row = record { y = low; scroll = ok.row.scroll; tall = ground (arith, ok.spread) };
  spread = ok.spread;
  pen = omega (arith, (left_edge-le p).0);
  open_row = λ h. absurd (ground (arith, h));
  inside = All-append StartsInside p.calls cs ok.inside more;
}

pub on_line_end-IsLaidOut :
    (s : Style) (p : PageRenderer) → IsLaidOut p → Continues s p → IsLaidOut (on_line_end s p)
unfolding on_line_end newline left_edge
on_line_end-IsLaidOut s p ok deep =
    let begun = begun-IsLaidOut s p ok deep in
    let ruled = heading_rule-StartsInside s.depth (with_depth s p) begun in
    ended-IsLaidOut _ false false false false 0 (heading_rule s.depth (with_depth s p))
      (with_depth s p) begun ruled (ground arith)
