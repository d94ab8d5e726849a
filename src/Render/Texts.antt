-- ===== src/Render/Texts.antt =====
-- Texts and links keep a page that is laid out well.
use thicket_firmware.Base.{
  ℕ, ◌≡◌, refl, sym, ◌∙◌, arith, true, ◌&&◌, ltb, length, [], ◌∷◌, ◌++◌, Bool-cases, inl, inr,
}
use thicket_firmware.Base.Memory.{Memory}
use thicket_firmware.Lcd.Text.{Fonts}
use thicket_firmware.Render.State.{Style, PageRenderer}
use thicket_firmware.Render.Page.{left_edge, height, row_visible}
use thicket_firmware.Render.Events.{
  at_edge, with_depth, align_span, choose_face, dark_bg, restyled, with_bg, begin_text, link_box,
  on_text, record_link, on_link,
}
use thicket_firmware.Render.Layout.{IsLaidOut, Starts, emit_run-IsLaidOut}
use thicket_firmware.Render.Ready.{
  IsReady, IsLaidOut-same, at_edge-IsReady, align_span-IsReady, choose_face-IsReady,
}

-- A style may change the left edge of a fresh row only.
abbrev pub Continues : Style → PageRenderer → Type 0
Continues s p = p.row_open ≡ true → left_edge (with_depth s p) ≡ left_edge p

-- Another depth on a fresh row.
pub redepth-IsLaidOut :
    (p q : PageRenderer)
    → IsLaidOut p
    → (p.row_open ≡ true → left_edge q ≡ left_edge p)
    → (q.y ≡ p.y) × (q.scroll ≡ p.scroll) × (height q ≡ height p) × (q.leading ≡ p.leading)
    → q.x ≡ p.x
    → q.row_open ≡ p.row_open
    → q.calls ≡ p.calls
    → IsLaidOut q
redepth-IsLaidOut p q ok deep same pen already told = record {
  row = record {
    y = omega (arith, same.0, ok.row.y);
    scroll = omega (arith, same.1, ok.row.scroll);
    tall = omega (arith, same.2, ok.row.tall);
  };
  spread = omega (arith, same.3, ok.spread);
  pen = omega (arith, pen, ok.pen);
  open_row = λ h. let now = sym already ∙ h in omega (arith, deep now, pen, ok.open_row now);
  inside = rw told ok.inside;
}

pub on_text-IsLaidOut :
    (fonts : Fonts) (t : Memory) (n : ℕ) (s : Style) (p : PageRenderer)
    → IsLaidOut p
    → Continues s p
    → Starts t n (begin_text s p)
    → IsLaidOut (on_text fonts t n s p)
unfolding on_text left_edge
on_text-IsLaidOut fonts t n s p ok deep start =
    let same =
      redepth-IsLaidOut p (begin_text s p) ok deep (refl, refl, refl, refl) refl refl refl in
    let ready : IsReady t n (begin_text s p) = record { laid_out = same; starts = start } in
    let edge = at_edge-IsReady t n (begin_text s p) ready in
    let q = align_span t n s.align (at_edge (begin_text s p)) in
    let placed = align_span-IsReady t n s.align (at_edge (begin_text s p)) edge in
    let backed : IsReady t n (with_bg s q) = record {
      laid_out =
          IsLaidOut-same q (with_bg s q) placed.laid_out (refl, refl, refl, refl, refl) refl refl
            refl;
      starts = placed.starts;
    } in
    let r = choose_face fonts t n s (with_bg s q) in
    let headed = choose_face-IsReady fonts t n s (with_bg s q) backed in
    let styled =
      IsLaidOut-same r (restyled s r) headed.laid_out (refl, refl, refl, refl, refl) refl refl
        refl in
    emit_run-IsLaidOut fonts t n (dark_bg r) (restyled s r) styled headed.starts

record_link-IsLaidOut :
    (x0 y0 : ℕ) (target : Memory) (target_len : ℕ) (p : PageRenderer)
    → IsLaidOut p
    → IsLaidOut (record_link x0 y0 target target_len p)
unfolding record_link
record_link-IsLaidOut x0 y0 target target_len p ok =
    let boxed = record p { links = p.links ++ link_box x0 y0 target target_len p ∷ [] } in
    let over = record p { links_overflowed = true } in
    elim (Bool-cases (row_visible p && ltb (length p.links) 48)) [
      | inl room ↦ rw room (IsLaidOut-same p boxed ok (refl, refl, refl, refl, refl) refl refl refl)
      | inr full ↦ elim (Bool-cases (row_visible p)) [
        | inl seen ↦
            rw (full, seen) (IsLaidOut-same p over ok (refl, refl, refl, refl, refl) refl refl refl)
        | inr hidden ↦ rw (full, hidden) ok
      ]
    ]

pub on_link-IsLaidOut :
    (fonts : Fonts) (label : Memory) (label_len : ℕ) (target : Memory) (target_len : ℕ) (s : Style)
    (p : PageRenderer)
    → IsLaidOut p
    → Continues s p
    → Starts label label_len (with_depth s p)
    → IsLaidOut (on_link fonts label label_len target target_len s p)
unfolding on_link
on_link-IsLaidOut fonts label label_len target target_len s p ok deep start =
    let ready : IsReady label label_len (with_depth s p) = record {
      laid_out =
          redepth-IsLaidOut p (with_depth s p) ok deep (refl, refl, refl, refl) refl refl refl;
      starts = start;
    } in
    let begun = at_edge-IsReady label label_len (with_depth s p) ready in
    record_link-IsLaidOut _ _ target target_len _
      (emit_run-IsLaidOut fonts label label_len _ _ begun.laid_out begun.starts)
