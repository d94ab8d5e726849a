-- ===== src/Render/Wrapping.antt =====
-- What the glyphs and the words of a run ask of the display.
use thicket_firmware.Base.{
  ℕ, ◌+◌, ◌≤◌, ◌<◌, ◌≡◌, refl, arith, Bool, true, false, not, ◌&&◌, ◌||◌, List, [], ◌∷◌, ◌++◌, ltb,
  ◌==◌, if◌then◌else◌, u32, length, All, All-append, Bool-cases, Option-cases, inl, inr,
}
use thicket_firmware.Base.Memory.{Memory}
use thicket_firmware.Lcd.Text.{Fonts}
use thicket_firmware.Lcd.TextCalls.{BoldFace, bold_w}
use thicket_firmware.Render.State.{Call, Missing, PageRenderer}
use thicket_firmware.Render.Page.{
  glyph, glyph_cp, height, row_visible, screen_y, note_missing, count_again, seq_len,
}
use thicket_firmware.Render.Faces.{
  bold_has, head_bold_face, advance, face_has, note_face, draw_glyph, paint_bg,
}
use thicket_firmware.Render.Run.{is_space, underline_calls, cell_calls, word_calls}
use thicket_firmware.Render.StartsInside.{StartsInside, IsRow}
use thicket_firmware.Render.Window.{row_visible-screen_y}

bold_w-range : (face : BoldFace) → (6 ≤ bold_w face) × (bold_w face ≤ 8)
unfolding bold_w
bold_w-range BoldFace.bold_inline = omega arith
bold_w-range BoldFace.bold_h3 = omega arith
bold_w-range BoldFace.bold_h2 = omega arith

pub advance-range : (p : PageRenderer) → (6 ≤ advance p) × (advance p ≤ 12)
unfolding advance
advance-range p =
    ground (arith, bold_w-range (head_bold_face p.head), bold_w-range BoldFace.bold_inline)

-- A count of missing glyphs changes nothing else.
abbrev pub counted : List Missing → ℕ → Bool → PageRenderer → PageRenderer
counted ms total over p = record p { missing = ms; missing_total = total; missing_over = over }

pub note_missing-counted :
    (cp : ℕ) (p : PageRenderer)
    → (ms : List Missing) × (total : ℕ) × (over : Bool) × (note_missing cp p
        ≡ counted ms total over p)
unfolding note_missing
note_missing-counted cp p = elim (Option-cases (count_again cp p.missing)) [
  | inl unknown ↦ elim (Bool-cases (ltb (length p.missing) 24)) [
    | inl room ↦ (
      p.missing ++ record { cp = cp; n = 1 } ∷ [],
      u32 (p.missing_total + 1),
      p.missing_over,
      ground (arith, unknown, room),
    )
    | inr full ↦ (p.missing, u32 (p.missing_total + 1), true, ground (arith, unknown, full))
  ]
  | inr (ms, again) ↦ (ms, u32 (p.missing_total + 1), p.missing_over, ground (arith, again))
]

pub note_face-counted :
    (fonts : Fonts) (cp : ℕ) (p : PageRenderer)
    → (ms : List Missing) × (total : ℕ) × (over : Bool) × (note_face fonts cp p
        ≡ counted ms total over p)
unfolding note_face
note_face-counted fonts cp p = elim (Bool-cases (face_has fonts cp p)) [
  | inl there ↦ (p.missing, p.missing_total, p.missing_over, rw there refl)
  | inr hole ↦ rw hole (note_missing-counted cp p)
]

-- The advance that the drawing of a glyph returns is the row's, whatever face draws it, also where
-- an inline bold glyph falls back to the body's font. Its one call is inside the margin where the
-- advance fits before it, on a line of the panel.
pub draw_glyph-advance :
    (fonts : Fonts) (x y : ℕ) (g : List ℕ) (cp : ℕ) (black : Bool) (p : PageRenderer)
    → ((draw_glyph fonts x y g cp black p).1 ≡ advance p)
      × (x + advance p ≤ 398 → y < 240 → StartsInside (draw_glyph fonts x y g cp black p).0)
unfolding draw_glyph advance StartsInside bold_w
draw_glyph-advance fonts x y g cp black p = elim (Bool-cases (p.head == 1)) [
  | inl h1 ↦ rw h1 (refl, λ h k. (h, k))
  | inr other ↦ elim (Bool-cases (p.head == 2 || p.head == 3)) [
    | inl bold_head ↦ rw (other, bold_head) (refl, λ h k. (h, k))
    | inr body ↦ elim (Bool-cases p.bold) [
      | inr plain ↦ simp (other, body, plain) (refl, λ h k. (h, k))
      | inl heavy ↦ elim (Bool-cases (bold_has fonts cp BoldFace.bold_inline)) [
        | inl there ↦ simp (other, body, heavy, there) (refl, λ h k. (h, k))
        | inr hole ↦ simp (other, body, heavy, hole) (refl, λ h k. (h, k))
      ]
    ]
  ]
]

pub paint_bg-StartsInside :
    (x w luma : ℕ) (p : PageRenderer)
    → IsRow p
    → x + w ≤ 398
    → All StartsInside (paint_bg x w luma p)
unfolding paint_bg StartsInside screen_y row_visible
paint_bg-StartsInside x w luma p ok fits = elim (Bool-cases (row_visible p)) [
  | inr hidden ↦ rw hidden tt
  | inl seen ↦
      let place = row_visible-screen_y p ok.y ok.scroll seen in
      elim (Bool-cases p.dither) [
        | inl dithered ↦ rw (seen, dithered) ((fits, place.1), tt)
        | inr flat ↦
            rw (seen, flat)
              (elim (Bool-cases (ltb luma 128)) [
                | inl dark ↦ rw dark ((fits, place.1, omega (arith, place.1, ok.tall)), tt)
                | inr light ↦ rw light tt
              ])
      ]
]

pub underline_calls-StartsInside :
    (x w : ℕ) (invert : Bool) (p : PageRenderer)
    → x + w ≤ 398
    → All StartsInside (underline_calls x w invert p)
unfolding underline_calls StartsInside
underline_calls-StartsInside x w invert p fits = elim (Bool-cases (p.underline && row_visible p)) [
  | inl ruled ↦ rw ruled (fits, tt)
  | inr plain ↦ rw plain tt
]

cell_calls-StartsInside :
    (blank invert : Bool) (p : PageRenderer)
    → IsRow p
    → p.x + advance p ≤ 398
    → row_visible p ≡ true
    → All StartsInside (cell_calls blank invert p)
unfolding cell_calls StartsInside
cell_calls-StartsInside blank invert p ok fits seen =
    let place = row_visible-screen_y p ok.y ok.scroll seen in
    let boxed : All StartsInside
        (Call.rect_call p.x (screen_y p) (advance p) (height p) true ∷ []) =
      ((fits, place.1, omega (arith, place.1, ok.tall)), tt) in
    elim (Bool-cases p.has_bg) [
      | inl textured ↦ elim (Bool-cases blank) [
        | inl space ↦
            simp (textured, space) (paint_bg-StartsInside p.x (advance p) p.bg_luma p ok fits)
        | inr inked ↦ simp (textured, inked) boxed
      ]
      | inr plain ↦ elim (Bool-cases invert) [
        | inl dark ↦ simp (plain, dark) boxed
        | inr light ↦ simp (plain, light) tt
      ]
    ]

unless :
    (blank : Bool) (c : Call) → StartsInside c → All StartsInside (if blank then [] else c ∷ [])
unless true c h = tt
unless false c h = (h, tt)

pub word_calls-StartsInside :
    (fonts : Fonts) (t : Memory) (invert : Bool) (k : ℕ) (p : PageRenderer)
    → IsRow p
    → p.x + advance p ≤ 398
    → All StartsInside (word_calls fonts t invert k p)
unfolding word_calls
word_calls-StartsInside fonts t invert k p ok fits = elim (Bool-cases (row_visible p)) [
  | inr hidden ↦ rw hidden tt
  | inl seen ↦
      let place = row_visible-screen_y p ok.y ok.scroll seen in
      let blank = seq_len (t k) == 1 && is_space (t k) in
      let inked =
        (draw_glyph-advance fonts p.x (screen_y p) (glyph t k) (glyph_cp t k) (not invert) p).1 fits
          place.1 in
      let ruled = underline_calls-StartsInside p.x (advance p) invert p fits in
      let under = cell_calls-StartsInside blank invert p ok fits seen in
      rw seen (
        All-append StartsInside _ _ (All-append StartsInside _ _ under (unless blank _ inked))
          ruled)
]
