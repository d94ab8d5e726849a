-- ===== src/Render/Placed.antt =====
-- The glyphs of a run, one by one: each stays between the left edge and the right margin.
use thicket_firmware.Base.{
  ℕ, zero, suc, ◌+◌, ◌*◌, ◌≤◌, ◌<◌, ◌≡◌, ◌⊎◌, refl, ◌∙◌, arith, Bool, true, not, List, [], ◌∷◌,
  ◌++◌, ltb, if◌then◌else◌, u16, All, All-append, Bool-cases, inl, inr,
}
use thicket_firmware.Base.Memory.{Memory}
use thicket_firmware.Lcd.Text.{Fonts}
use thicket_firmware.Render.State.{Call, PageRenderer}
use thicket_firmware.Render.Page.{
  glyph, glyph_cp, left_edge, row_visible, screen_y, newline, wrap_if_needed, seq_len, cells_from,
}
use thicket_firmware.Render.Faces.{advance, note_face, draw_glyph}
use thicket_firmware.Render.Run.{hard_glyph, hard_loop, word_calls, word_glyph, word_loop}
use thicket_firmware.Render.StartsInside.{StartsInside, IsRow}
use thicket_firmware.Render.Window.{left_edge-le, wrap_if_needed-fits, row_visible-screen_y}
use thicket_firmware.Render.Wrapping.{
  advance-range, note_face-counted, draw_glyph-advance, word_calls-StartsInside,
}

-- A row with its left edge and its advance, all of whose calls so far are inside.
pub record IsPlaced (le adv : ℕ) (p : PageRenderer) : Type 0 where
  pub edge : left_edge p ≡ le
  pub wide : advance p ≡ adv
  pub row : IsRow p
  pub spread : p.leading < 256
  pub inside : All StartsInside p.calls

pub newline-IsPlaced :
    (le adv : ℕ) (p : PageRenderer) → IsPlaced le adv p → IsPlaced le adv (newline p)
unfolding newline left_edge advance
newline-IsPlaced le adv p ok = record {
  edge = ok.edge;
  wide = ok.wide;
  row = record { y = omega arith; scroll = ok.row.scroll; tall = ok.row.tall };
  spread = ok.spread;
  inside = ok.inside;
}

pub newline-x : (p : PageRenderer) → (newline p).x ≡ left_edge p
unfolding newline left_edge
newline-x p = refl

-- More calls and another pen, on the same row.
pub moved-IsPlaced :
    (le adv x : ℕ) (row_open : Bool) (cs : List Call) (p : PageRenderer)
    → IsPlaced le adv p
    → All StartsInside cs
    → IsPlaced le adv (record p { calls = p.calls ++ cs; x = x; row_open = row_open })
unfolding left_edge advance
moved-IsPlaced le adv x row_open cs p ok more = record {
  edge = ok.edge;
  wide = ok.wide;
  row = record { y = ok.row.y; scroll = ok.row.scroll; tall = ok.row.tall };
  spread = ok.spread;
  inside = All-append StartsInside p.calls cs ok.inside more;
}

-- A count of missing glyphs keeps the pen and the row.
note_face-IsPlaced :
    (fonts : Fonts) (cp le adv : ℕ) (p : PageRenderer)
    → IsPlaced le adv p
    → IsPlaced le adv (note_face fonts cp p) × ((note_face fonts cp p).x ≡ p.x)
unfolding left_edge advance
note_face-IsPlaced fonts cp le adv p ok =
    let (ms, total, over, e) = note_face-counted fonts cp p in
    rw e (
      record {
        edge = ok.edge;
        wide = ok.wide;
        row = record { y = ok.row.y; scroll = ok.row.scroll; tall = ok.row.tall };
        spread = ok.spread;
        inside = ok.inside;
      },
      refl,
    )

-- One glyph of a word that has room.
word_glyph-IsPlaced :
    (fonts : Fonts) (t : Memory) (invert : Bool) (k le adv : ℕ) (p : PageRenderer)
    → IsPlaced le adv p
    → p.x + adv ≤ 398
    → IsPlaced le adv (word_glyph fonts t invert k p)
      × ((word_glyph fonts t invert k p).x ≡ p.x + adv)
unfolding word_glyph
word_glyph-IsPlaced fonts t invert k le adv p ok fits =
    let q = note_face fonts (glyph_cp t k) p in
    let (set, pen) = note_face-IsPlaced fonts (glyph_cp t k) le adv p ok in
    let asked = word_calls-StartsInside fonts t invert k q set.row (omega (arith, set.wide, pen)) in
    (
      moved-IsPlaced le adv (u16 (q.x + advance q)) true (word_calls fonts t invert k q) q set
          asked,
      omega (arith, set.wide, pen),
    )

-- A word moves the pen by an advance for each of its glyphs.
pub word_loop-IsPlaced :
    (left : ℕ) (fonts : Fonts) (t : Memory) (w : ℕ) (invert : Bool) (k le adv : ℕ)
    (p : PageRenderer)
    → IsPlaced le adv p
    → p.x + cells_from left t w k * adv ≤ 398
    → let q = word_loop left fonts t w invert k p in
      IsPlaced le adv q × (q.x ≡ p.x + cells_from left t w k * adv)
unfolding word_loop cells_from
word_loop-IsPlaced zero fonts t w invert k le adv p ok fits = (ok, omega arith)
word_loop-IsPlaced (suc left) fonts t w invert k le adv p ok fits = elim (Bool-cases (ltb k w)) [
  | inr ended ↦ rw ended (ok, omega arith)
  | inl more ↦
      let cs = cells_from left t w (k + seq_len (t k)) in
      let all : (suc cs) * adv ≡ adv + cs * adv = grind arith in
      let room : p.x + suc cs * adv ≤ 398 = ground (arith, more) in
      let first = word_glyph-IsPlaced fonts t invert k le adv p ok (omega arith) in
      let rest =
        word_loop-IsPlaced left fonts t w invert (k + seq_len (t k)) le adv
          (word_glyph fonts t invert k p) first.0 (omega (arith, first.1)) in
      rw more (rest.0, rest.1 ∙ omega (arith, first.1))
]

-- A wrap test keeps what is set, and leaves room for a piece.
wrap_if_needed-IsPlaced :
    (le adv : ℕ) (p : PageRenderer)
    → IsPlaced le adv p
    → le ≤ p.x
    → let q = wrap_if_needed (advance p) p in IsPlaced le adv q × (le ≤ q.x) × (q.x + adv ≤ 398)
wrap_if_needed-IsPlaced le adv p ok pen =
    let fits =
      wrap_if_needed-fits (advance p) p (omega (arith, (left_edge-le p).0, (advance-range p).1)) in
    let room : (wrap_if_needed (advance p) p).x + adv ≤ 398 = omega (arith, fits.0, ok.wide) in
    elim fits.2 [
      | inl same ↦ (rw same ok, rw same pen, room)
      | inr (next, _, x) ↦ (rw next (newline-IsPlaced le adv p ok), omega (arith, x, ok.edge), room)
    ]

-- One glyph of a token that is broken at the margin.
hard_glyph-IsPlaced :
    (fonts : Fonts) (t : Memory) (invert : Bool) (k le adv : ℕ) (p : PageRenderer)
    → IsPlaced le adv p
    → le ≤ p.x
    → let q = hard_glyph fonts t invert k p in IsPlaced le adv q × (le < q.x) × (q.x ≤ 398)
unfolding hard_glyph
hard_glyph-IsPlaced fonts t invert k le adv p ok pen =
    let (set, low, room) = wrap_if_needed-IsPlaced le adv p ok pen in
    let r = wrap_if_needed (advance p) p in
    let q = note_face fonts (glyph_cp t k) r in
    let (noted, x) = note_face-IsPlaced fonts (glyph_cp t k) le adv r set in
    let drawn = draw_glyph fonts q.x (screen_y q) (glyph t k) (glyph_cp t k) (not invert) q in
    let asked : All StartsInside (if row_visible q then drawn.0 ∷ [] else []) =
      elim (Bool-cases (row_visible q)) [
        | inr hidden ↦ rw hidden tt
        | inl seen ↦
            let place = row_visible-screen_y q noted.row.y noted.row.scroll seen in
            rw seen (
              (draw_glyph-advance fonts q.x (screen_y q) (glyph t k) (glyph_cp t k) (not invert)
                    q).1
                  (omega (arith, x, noted.wide, room)) place.1,
              tt,
            )
      ] in
    let wide = advance-range q in
    (
      moved-IsPlaced le adv (u16 (q.x + advance q)) true _ q noted asked,
      omega (arith, x, noted.wide, room, low, wide),
      omega (arith, x, noted.wide, room, low, wide),
    )

-- A broken token leaves its pen inside the margins, and right of the left edge.
pub hard_loop-IsPlaced :
    (left : ℕ) (fonts : Fonts) (t : Memory) (w : ℕ) (invert : Bool) (k le adv : ℕ)
    (p : PageRenderer)
    → IsPlaced le adv p
    → le ≤ p.x
    → p.x ≤ 398
    → let q = hard_loop left fonts t w invert k p in
      IsPlaced le adv q × (le ≤ q.x) × (q.x ≤ 398) × (le < p.x ⊎ ((k < w) × (0 < left)) → le < q.x)
unfolding hard_loop
hard_loop-IsPlaced zero fonts t w invert k le adv p ok low high = (ok, low, high, λ h. omega arith)
hard_loop-IsPlaced (suc left) fonts t w invert k le adv p ok low high =
    elim (Bool-cases (ltb k w)) [
      | inr ended ↦ rw ended (ok, low, high, λ h. ground (arith, ended))
      | inl more ↦
          let (set, further, fits) = hard_glyph-IsPlaced fonts t invert k le adv p ok low in
          let rest =
            hard_loop-IsPlaced left fonts t w invert (k + seq_len (t k)) le adv
              (hard_glyph fonts t invert k p) set (omega (arith, further)) fits in
          rw more (rest.0, rest.1, rest.2, λ _. rest.3 (inl further))
    ]
