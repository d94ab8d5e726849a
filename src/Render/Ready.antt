-- ===== src/Render/Ready.antt =====
-- What leads to a run of text keeps the page laid out well, and the run fit to start.
use thicket_firmware.Base.{
  ℕ, ◌+◌, ◌-◌, ◌*◌, ◌≤◌, ◌<◌, ◌≡◌, refl, sym, ◌∙◌, arith, false, not, ◌&&◌, leb, ◌==◌, u16,
  Bool-cases, inl, inr,
}
use thicket_firmware.Base.Memory.{Memory}
use thicket_firmware.Lcd.Text.{Fonts}
use thicket_firmware.Lcd.TextCalls.{BoldFace, bold_h}
use thicket_firmware.Render.State.{Align, Style, PageRenderer}
use thicket_firmware.Render.Page.{cells, left_edge, height}
use thicket_firmware.Render.Faces.{advance}
use thicket_firmware.Render.Events.{
  at_edge, aligned_x, align_span, head_face, wanted_face, face_h, takes_face, choose_face,
}
use thicket_firmware.Render.StartsInside.{IsRow-same, SameRow}
use thicket_firmware.Render.Window.{left_edge-le}
use thicket_firmware.Render.Layout.{IsLaidOut, Starts}

-- A page that is laid out well, where a run may start.
pub record IsReady (t : Memory) (n : ℕ) (p : PageRenderer) : Type 0 where
  pub laid_out : IsLaidOut p
  pub starts : Starts t n p

-- A state with the same row, pen and calls.
pub IsLaidOut-same :
    (p q : PageRenderer)
    → IsLaidOut p
    → SameRow p q
    → q.x ≡ p.x
    → q.row_open ≡ p.row_open
    → q.calls ≡ p.calls
    → IsLaidOut q
unfolding left_edge
IsLaidOut-same p q ok same pen already told = record {
  row = IsRow-same p q ok.row same;
  spread = omega (arith, same.4, ok.spread);
  pen = omega (arith, pen, ok.pen);
  open_row = λ h. rw (same.3, pen) (ok.open_row (sym already ∙ h));
  inside = rw told ok.inside;
}

-- On a fresh row the start of a run does not depend on the pen.
Starts-closed :
    (t : Memory) (n : ℕ) (p q : PageRenderer)
    → p.row_open ≡ false
    → q.literal ≡ p.literal
    → Starts t n p
    → Starts t n q
Starts-closed t n p q fresh same start = elim start [
  | inl literal ↦ inl (same ∙ literal)
  | inr (short, inl letter) ↦ inr (short, inl letter)
  | inr (short, inr (already, _)) ↦ absurd (ground (arith, fresh, already))
]

-- A fresh row with another pen left of the margin.
fresh-IsReady :
    (t : Memory) (n x : ℕ) (p : PageRenderer)
    → p.row_open ≡ false
    → x ≤ 398
    → IsReady t n p
    → IsReady t n (record p { x = x })
unfolding left_edge
fresh-IsReady t n x p fresh fits ready = record {
  laid_out =
      let ok = ready.laid_out in
      record {
        row = record { y = ok.row.y; scroll = ok.row.scroll; tall = ok.row.tall };
        spread = ok.spread;
        pen = fits;
        open_row = λ h. absurd (ground (arith, fresh, h));
        inside = ok.inside;
      };
  starts = Starts-closed t n p (record p { x = x }) fresh refl ready.starts;
}

pub at_edge-IsReady :
    (t : Memory) (n : ℕ) (p : PageRenderer) → IsReady t n p → IsReady t n (at_edge p)
at_edge-IsReady t n p ready = elim (Bool-cases p.row_open) [
  | inl already ↦
      let same : at_edge p ≡ p = unfold at_edge in ground (arith, already) in rw same ready
  | inr fresh ↦
      let same : at_edge p ≡ record p { x = left_edge p } =
        unfold at_edge in ground (arith, fresh) in
      rw same (fresh-IsReady t n (left_edge p) p fresh (omega (arith, (left_edge-le p).0)) ready)
]

aligned_x-le :
    (align : Align) (w : ℕ) (p : PageRenderer)
    → p.x ≤ 398
    → w ≤ 398 - left_edge p
    → aligned_x align w (398 - left_edge p) p ≤ 398
unfolding aligned_x
aligned_x-le Align.left w p pen fits = pen
aligned_x-le Align.center w p pen fits = omega (arith, left_edge-le p)
aligned_x-le Align.right w p pen fits = omega arith

pub align_span-IsReady :
    (t : Memory) (n : ℕ) (align : Align) (p : PageRenderer)
    → IsReady t n p
    → IsReady t n (align_span t n align p)
unfolding align_span
align_span-IsReady t n align p ready =
    let w = u16 (cells t n * advance p) in
    let avail : u16 (398 - left_edge p) ≡ 398 - left_edge p = omega arith in
    elim (Bool-cases (not p.row_open && leb w (u16 (398 - left_edge p)))) [
      | inr unplaced ↦ rw unplaced ready
      | inl placed ↦
          let fits : w ≤ 398 - left_edge p = ground (arith, placed) in
          rw placed (
            fresh-IsReady t n _ p (ground (arith, placed))
              (rw avail (aligned_x-le align w p ready.laid_out.pen fits)) ready)
    ]

bold_h-range : (face : BoldFace) → (12 ≤ bold_h face) × (bold_h face ≤ 16)
unfolding bold_h
bold_h-range BoldFace.bold_inline = omega arith
bold_h-range BoldFace.bold_h3 = omega arith
bold_h-range BoldFace.bold_h2 = omega arith

face_h-range : (want : ℕ) → (12 ≤ face_h want) × (face_h want ≤ 26)
unfolding face_h
face_h-range want = ground (arith, bold_h-range (head_face want))

pub choose_face-IsReady :
    (fonts : Fonts) (t : Memory) (n : ℕ) (s : Style) (p : PageRenderer)
    → IsReady t n p
    → IsReady t n (choose_face fonts t n s p)
unfolding choose_face left_edge
choose_face-IsReady fonts t n s p ready = elim (Bool-cases (takes_face fonts t n s p)) [
  | inr body ↦ rw body ready
  | inl headed ↦
      let fresh : p.row_open ≡ false = ground (arith, headed) in
      let want = wanted_face s in
      let q = record p { head = want; big = want == 1; row_h = u16 (face_h want + p.leading) } in
      let ok = ready.laid_out in
      let tall : height q < 65000 = ground (arith, ok.spread, face_h-range want) in
      let laid_out : IsLaidOut q = record {
        row = record { y = ok.row.y; scroll = ok.row.scroll; tall = tall };
        spread = ok.spread;
        pen = ok.pen;
        open_row = ok.open_row;
        inside = ok.inside;
      } in
      rw headed
        (record { laid_out = laid_out; starts = Starts-closed t n p q fresh refl ready.starts })
]
