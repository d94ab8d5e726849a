-- ===== src/Lcd/TextLaws.antt =====
-- A whole line of text.
use thicket_firmware.Base.{
  ℕ, zero, suc, ◌+◌, ◌*◌, ◌≤◌, ◌<◌, ◌≡◌, ◌∙◌, ap, refl, arith, Bool, false, ◌||◌, List, [], ◌∷◌,
  ◌++◌, some, ltb, Bool-cases, inl, inr, u16, length, ◌^◌, All,
}
use thicket_firmware.Lcd.SharpLcd.{SharpLcd}
use thicket_firmware.Lcd.Pixels.{IsStored}
use thicket_firmware.Lcd.Draw.{Draws-IsStored}
use thicket_firmware.Lcd.Area.{IsPainted, IsPainted-none, IsPainted-both}
use thicket_firmware.Lcd.Text.{Fonts, glyph_for, draw_rows}
use thicket_firmware.Lcd.TextCalls.{draw_text, or_box}
use thicket_firmware.Lcd.Utf8.{utf8, decode, decode-utf8}
use thicket_firmware.Lcd.Glyphs.{rows_ink, draw_rows-IsPainted}

-- A text of codepoints.
unfoldable pub utf8s : List ℕ → List ℕ
utf8s [] = []
utf8s (cp ∷ cps) = utf8 cp ++ utf8s cps

-- The ink of a line of glyphs, each in its cell of 6 columns.
unfoldable pub line_ink : Fonts → List ℕ → ℕ → ℕ → ℕ → ℕ → Bool
line_ink fonts [] x y u v = false
line_ink fonts (cp ∷ cps) x y u v =
    rows_ink 0 13 7 0x80 (or_box (glyph_for fonts cp)) x y u v || line_ink fonts cps (x + 6) y u v

-- One round of the walk.
draw_text-cons :
    (fuel : ℕ) (fonts : Fonts) (x y cp : ℕ) (text rest : List ℕ) (black : Bool) (s : SharpLcd)
    → 0 < length text
    → decode text ≡ (cp, rest)
    → draw_text (suc fuel) fonts x y text black s
      ≡ draw_text fuel fonts
          (u16 (x + 6))
          y
          rest
          black
          (draw_rows 13 0 7 0x80 (or_box (glyph_for fonts cp)) x y black s)
unfolding draw_text
draw_text-cons fuel fonts x y cp [] rest black s more e = absurd (omega arith)
draw_text-cons fuel fonts x y cp (c ∷ text) rest black s more e = rw e refl

utf8-nonempty : (cp : ℕ) (s : List ℕ) → 0 < length (utf8 cp ++ s)
unfolding utf8
utf8-nonempty cp s = elim (Bool-cases (ltb cp 0x80)) [
  | inl one ↦ rw one (omega arith)
  | inr more ↦ elim (Bool-cases (ltb cp 0x800)) [
    | inl two ↦ rw (more, two) (omega arith)
    | inr wide ↦ elim (Bool-cases (ltb cp 0x10000)) [
      | inl three ↦ rw (more, wide, three) (omega arith)
      | inr astral ↦ rw (more, wide, astral) (omega arith)
    ]
  ]
]

-- Over a framebuffer of bytes, a line of codepoints above 0 and below 2^21 whose cells fit the
-- coordinates' 16 bits is drawn to its end in one round for each codepoint and one more: the
-- returned x is one cell of 6 for each codepoint further, whether or not there is a glyph for it,
-- exactly the set bits of the glyphs in their cells, or of the missing-glyph box, get the colour,
-- and every other pixel keeps its own.
pub draw_text-IsPainted :
    (fuel : ℕ) (fonts : Fonts) (x y : ℕ) (cps : List ℕ) (black : Bool) (s : SharpLcd)
    → IsStored s
    → All (λ cp. (0 < cp) × (cp < 2 ^ 21)) cps
    → x + 6 * length cps + 1 ≤ 65535
    → y + 13 ≤ 65536
    → length cps < fuel
    → (t : SharpLcd) × (draw_text fuel fonts x y (utf8s cps) black s ≡ some (x + 6 * length cps, t))
      × IsPainted (line_ink fonts cps x y) black s t
unfolding line_ink utf8s draw_text
draw_text-IsPainted zero fonts x y cps black s ok valid fits tall enough = ground arith
draw_text-IsPainted (suc fuel) fonts x y [] black s ok valid fits tall enough =
    (s, ap (λ k. some (k, s)) (omega arith), IsPainted-none _ black s (λ u v hu hv. refl))
draw_text-IsPainted (suc fuel) fonts x y (cp ∷ cps) black s ok valid fits tall enough =
    let g = or_box (glyph_for fonts cp) in
    let first = draw_rows-IsPainted 13 0 7 0x80 g x y black s ok (omega arith) (omega arith) in
    let rest =
      draw_text-IsPainted fuel fonts (x + 6) y cps black _ (Draws-IsStored ok first.drawn) valid.1
        (omega arith) tall (omega arith) in
    let walk =
      draw_text-cons fuel fonts x y cp (utf8s (cp ∷ cps)) (utf8s cps) black s
        (utf8-nonempty cp (utf8s cps)) (decode-utf8 cp (utf8s cps) valid.0.1) in
    let next : u16 (x + 6) ≡ x + 6 = ground arith in
    (
      rest.0,
      walk
          ∙ ap
              (λ k.
                draw_text fuel fonts k y (utf8s cps) black (draw_rows 13 0 7 0x80 g x y black s))
              next
          ∙ rest.1
          ∙ ap (λ k. some (k, rest.0)) (omega arith),
      IsPainted-both _ _ _ black (λ u v hu hv. refl) first rest.2,
    )
