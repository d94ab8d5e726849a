-- ===== src/Render/StartsInside.antt =====
-- What the renderer asks of the display: the calls that start inside the page's area.
use thicket_firmware.Base.{
  ℕ, ◌+◌, ◌≤◌, ◌<◌, ◌≡◌, arith, List, ◌++◌, append_assoc, All, All-append, Option-cases, inl, inr,
  ap, ◌∙◌,
}
use thicket_firmware.Lcd.Text.{Fonts, glyph_for}
use thicket_firmware.Render.State.{Call, PageRenderer}
use thicket_firmware.Render.Page.{height, note_missing, count_missing, count_again}
use thicket_firmware.Lcd.TextCalls.{bold_w}

-- A rectangle, a texture or a line that ends left of the right margin, or a text that starts where
-- one cell of its face has room before the margin, on the panel's rows. How many cells the display
-- makes of the text's bytes is not in it: bytes that are no sequence can be several.
unfoldable pub StartsInside : Call → Type 0
StartsInside (Call.rect_call x y w h black) = (x + w ≤ 398) × (y < 240) × (y + h ≤ 65535)
StartsInside (Call.dither_call x y w h luma) = (x + w ≤ 398) × (y < 240)
StartsInside (Call.hline_call x y w black) = x + w ≤ 398
StartsInside (Call.text_call x y g black) = (x + 6 ≤ 398) × (y < 240)
StartsInside (Call.big_call x y g black) = (x + 12 ≤ 398) × (y < 240)
StartsInside (Call.bold_call x y g face black) = (x + bold_w face ≤ 398) × (y < 240)

-- What a row keeps while its glyphs are drawn.
abbrev pub SameRow : PageRenderer → PageRenderer → Type 0
SameRow p q =
    (q.y ≡ p.y)
    × (q.scroll ≡ p.scroll)
    × (height q ≡ height p)
    × (q.depth ≡ p.depth)
    × (q.leading ≡ p.leading)

pub record IsRow (p : PageRenderer) : Type 0 where
  pub y : p.y < 65536
  pub scroll : p.scroll < 65536
  pub tall : height p < 65000

pub IsRow-same : (p q : PageRenderer) → IsRow p → SameRow p q → IsRow q
IsRow-same p q ok same = record {
  y = omega (arith, ok.y, same.0);
  scroll = omega (arith, ok.scroll, same.1);
  tall = omega (arith, ok.tall, same.2);
}

pub note_missing-keeps :
    (cp : ℕ) (p : PageRenderer)
    → SameRow p (note_missing cp p)
      × ((note_missing cp p).x ≡ p.x)
      × ((note_missing cp p).calls ≡ p.calls)
unfolding note_missing
note_missing-keeps cp p = elim (Option-cases (count_again cp p.missing)) [
  | inl unknown ↦ ground (arith, unknown)
  | inr (ms, again) ↦ ground (arith, again)
]

pub count_missing-keeps :
    (fonts : Fonts) (cp : ℕ) (p : PageRenderer)
    → SameRow p (count_missing fonts cp p)
      × ((count_missing fonts cp p).x ≡ p.x)
      × ((count_missing fonts cp p).calls ≡ p.calls)
unfolding count_missing
count_missing-keeps fonts cp p = elim (Option-cases (glyph_for fonts cp)) [
  | inl hole ↦ rw (hole, count_missing) (note_missing-keeps cp p)
  | inr (g, there) ↦ ground (arith, there)
]

-- Calls added after others, all of them inside.
abbrev pub Adds : List Call → List Call → Type 0
Adds before after = (cs : List Call) × (after ≡ before ++ cs) × All StartsInside cs

pub Adds-trans : (old mid new : List Call) → Adds old mid → Adds mid new → Adds old new
Adds-trans old mid new (xs, e, a) (ys, f, b) =
    (xs ++ ys, f ∙ ap (λ l. l ++ ys) e ∙ append_assoc old xs ys, All-append StartsInside xs ys a b)
