-- ===== src/Render/Window.antt =====
-- Rows against the scroll window.
use thicket_firmware.Base.{
  ℕ, ◌+◌, ◌≤◌, ◌<◌, ◌≡◌, refl, ◌⊎◌, inl, inr, arith, true, ◌&&◌, ltb, Bool-cases,
}
use thicket_firmware.Render.State.{PageRenderer}
use thicket_firmware.Render.Page.{left_edge, row_visible, screen_y, newline, wrap_if_needed}

-- A visible row lies on the panel: the difference that gives its place does not wrap.
pub row_visible-screen_y :
    (p : PageRenderer)
    → p.y < 65536
    → p.scroll < 65536
    → row_visible p ≡ true
    → (screen_y p + p.scroll ≡ p.y) × (screen_y p < 240)
unfolding row_visible screen_y
row_visible-screen_y p hy hs seen = ground arith

-- However deep a section claims to be, its left edge leaves 58 columns.
pub left_edge-le : (p : PageRenderer) → (left_edge p ≤ 50) × (2 ≤ left_edge p)
unfolding left_edge
left_edge-le p = ground arith

pub left_edge-newline : (p : PageRenderer) → left_edge (newline p) ≡ left_edge p
unfolding newline left_edge
left_edge-newline p = refl

-- After a wrap test a piece that fits a row from its left edge fits from the pen: the pen was left
-- where it is if the piece fits there, and a new row was begun otherwise, at the left edge.
pub wrap_if_needed-fits :
    (next_w : ℕ) (p : PageRenderer)
    → left_edge p + next_w ≤ 398
    → let q = wrap_if_needed next_w p in
      (q.x + next_w ≤ 398)
      × (left_edge q ≡ left_edge p)
      × ((q ≡ p) ⊎ ((q ≡ newline p) × (398 < p.x + next_w) × (q.x ≡ left_edge p)))
unfolding wrap_if_needed
wrap_if_needed-fits next_w p fits =
    elim (Bool-cases (ltb (left_edge p) p.x && ltb 398 (p.x + next_w))) [
      | inl over ↦
          let pen : (newline p).x ≡ left_edge p = unfold newline in unfold left_edge in refl in
          rw over (omega (arith, pen), left_edge-newline p, inr (refl, ground arith, pen))
      | inr stay ↦ rw stay (ground arith, refl, inl refl)
    ]
