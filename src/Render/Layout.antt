-- ===== src/Render/Layout.antt =====
-- A page that is laid out well: its pen, its rows and what the display was told.
use thicket_firmware.Base.{
  ℕ, ◌≤◌, ◌<◌, ◌≡◌, ◌⊎◌, refl, ◌∙◌, arith, Bool, true, false, not, ◌&&◌, ltb, All, All-append,
  Bool-cases, inl, inr,
}
use thicket_firmware.Base.Memory.{Memory}
use thicket_firmware.Lcd.Text.{Fonts}
use thicket_firmware.Render.State.{PageRenderer}
use thicket_firmware.Render.Page.{left_edge, emit_literal, literal_loop}
use thicket_firmware.Render.Faces.{advance}
use thicket_firmware.Render.Run.{is_space, run_loop, guarded, emit_run}
use thicket_firmware.Render.StartsInside.{StartsInside, IsRow, IsRow-same}
use thicket_firmware.Render.Window.{left_edge-le}
use thicket_firmware.Render.Literal.{literal_loop-StartsInside}
use thicket_firmware.Render.Placed.{IsPlaced}
use thicket_firmware.Render.Prose.{run_loop-IsPlaced}

-- The numbers have their widths, the pen is left of the right margin, on an open row also right
-- of the left edge, and every call so far is inside.
pub record IsLaidOut (p : PageRenderer) : Type 0 where
  pub row : IsRow p
  pub spread : p.leading < 256
  pub pen : p.x ≤ 398
  pub open_row : p.row_open ≡ true → left_edge p ≤ p.x
  pub inside : All StartsInside p.calls

-- A run of text may be of any kind on a preformatted line. In prose it is of at most 5458 bytes,
-- and it begins with a letter unless its pen is right of the left edge of an open row.
abbrev pub Starts : Memory → ℕ → PageRenderer → Type 0
Starts t n p =
    (p.literal ≡ true)
    ⊎ ((n ≤ 5458)
        × ((0 < n → is_space (t 0) ≡ false) ⊎ ((p.row_open ≡ true) × (left_edge p < p.x))))

literal-IsLaidOut :
    (fonts : Fonts) (t : Memory) (n : ℕ) (invert : Bool) (p : PageRenderer)
    → IsRow p
    → p.leading < 256
    → left_edge p ≤ p.x
    → p.x ≤ 398
    → All StartsInside p.calls
    → IsLaidOut (literal_loop n fonts t n invert 0 p)
      × (left_edge (literal_loop n fonts t n invert 0 p) ≡ left_edge p)
literal-IsLaidOut fonts t n invert p row spread low high inside =
    let (same, x, (cs, e, more)) = literal_loop-StartsInside n fonts t n invert 0 p row high in
    let q = literal_loop n fonts t n invert 0 p in
    let edge : left_edge q ≡ left_edge p = unfold left_edge in rw same.3 refl in
    (
      record {
        row = IsRow-same p q row same;
        spread = omega (arith, same.4, spread);
        pen = omega (arith, x);
        open_row = λ _. omega (arith, x, edge);
        inside = rw e (All-append StartsInside p.calls cs inside more);
      },
      edge,
    )

guarded-IsPlaced :
    (p : PageRenderer)
    → IsLaidOut p
    → IsPlaced (left_edge p) (advance p) (guarded p)
      × (left_edge p ≤ (guarded p).x)
      × ((guarded p).x ≤ 398)
      × (p.row_open ≡ true → (guarded p).x ≡ p.x)
unfolding guarded left_edge advance
guarded-IsPlaced p ok = elim (Bool-cases (not p.row_open && ltb p.x (left_edge p))) [
  | inl pulled ↦ rw pulled (
    record {
      edge = refl;
      wide = refl;
      row = record { y = ok.row.y; scroll = ok.row.scroll; tall = ok.row.tall };
      spread = ok.spread;
      inside = ok.inside;
    },
    omega arith,
    omega (arith, (left_edge-le p).0),
    λ already. ground (arith, pulled, already),
  )
  | inr stays ↦ rw stays (
    record { edge = refl; wide = refl; row = ok.row; spread = ok.spread; inside = ok.inside },
    elim (Bool-cases p.row_open) [
      | inl already ↦ ok.open_row already
      | inr fresh ↦ ground (arith, stays, fresh)
    ],
    ok.pen,
    λ _. refl,
  )
]

-- A run keeps a page that is laid out well, and its left edge.
pub emit_run-keeps :
    (fonts : Fonts) (t : Memory) (n : ℕ) (invert : Bool) (p : PageRenderer)
    → IsLaidOut p
    → Starts t n p
    → IsLaidOut (emit_run fonts t n invert p)
      × (left_edge (emit_run fonts t n invert p) ≡ left_edge p)
unfolding emit_run emit_literal
emit_run-keeps fonts t n invert p ok start = elim (Bool-cases p.literal) [
  | inl preformatted ↦ elim (Bool-cases p.row_open) [
    | inl already ↦
        simp (preformatted, already)
          (literal-IsLaidOut fonts t n invert p ok.row ok.spread (ok.open_row already) ok.pen
            ok.inside)
    | inr fresh ↦
        let q = record p { x = left_edge p; row_open = false; literal = true } in
        let row : IsRow q = record { y = ok.row.y; scroll = ok.row.scroll; tall = ok.row.tall } in
        let edge : left_edge q ≡ left_edge p = unfold left_edge in refl in
        let drawn =
          literal-IsLaidOut fonts t n invert q row ok.spread (omega (arith, edge))
            (omega (arith, (left_edge-le p).0)) ok.inside in
        simp (preformatted, fresh) (drawn.0, drawn.1 ∙ edge)
  ]
  | inr prose ↦ elim start [
    | inl literal ↦ absurd (ground (arith, prose, literal))
    | inr (short, begins) ↦
        let (set, low, high, same) = guarded-IsPlaced p ok in
        let le = left_edge p in
        let first : 0 < n → (is_space (t 0) ≡ false) ⊎ (le < (guarded p).x) = λ some_byte.
          elim begins [
            | inl letter ↦ inl (letter some_byte)
            | inr (already, further) ↦ inr (omega (arith, same already))
          ] in
        let (kept, low', high') =
          run_loop-IsPlaced n fonts t n invert 0 le (advance p) (guarded p) set low high short
            first in
        let q = run_loop n fonts t n invert 0 (guarded p) in
        let laid_out : IsLaidOut q = record {
          row = kept.row;
          spread = kept.spread;
          pen = high';
          open_row = λ _. omega (arith, kept.edge, low');
          inside = kept.inside;
        } in
        simp prose (laid_out, kept.edge)
  ]
]

pub emit_run-IsLaidOut :
    (fonts : Fonts) (t : Memory) (n : ℕ) (invert : Bool) (p : PageRenderer)
    → IsLaidOut p
    → Starts t n p
    → IsLaidOut (emit_run fonts t n invert p)
emit_run-IsLaidOut fonts t n invert p ok start = (emit_run-keeps fonts t n invert p ok start).0
