-- ===== src/Render/Replay.antt =====
-- The renderer on the display: its calls, carried out by lib/SharpLcd/src/SharpLcd.cpp.
use thicket_firmware.Base.{
  max, ℕ, ◌+◌, ◌≤◌, ◌<◌, ◌≡◌, refl, arith, List, [], ◌∷◌, Option, none, some, All, length, ◌>>=◌,
}
use thicket_firmware.Lcd.SharpLcd.{SharpLcd}
use thicket_firmware.Lcd.Pixels.{IsStored}
use thicket_firmware.Lcd.VirtualPanel.{VirtualPanel}
use thicket_firmware.Lcd.Sync.{InSync}
use thicket_firmware.Lcd.Draw.{Draws, Draws-trans, Draws-IsStored, Draws-InSync}
use thicket_firmware.Lcd.Fill.{draw_hline, fill_rect, fill_dither}
use thicket_firmware.Lcd.Area.{fill_rect-IsPainted, draw_hline-IsPainted, fill_dither-IsPainted}
use thicket_firmware.Lcd.Text.{Fonts}
use thicket_firmware.Lcd.TextCalls.{BoldFace, draw_text, draw_text_big, draw_text_bold}
use thicket_firmware.Lcd.Walks.{text_calls-Ends}
use thicket_firmware.Render.State.{Call, PageRenderer, begin}
use thicket_firmware.Render.Page.{height}
use thicket_firmware.Render.StartsInside.{StartsInside}
use thicket_firmware.Render.Session.{PageSession, Session-IsLaidOut}

-- What a text call returns is not used by the renderer.
abbrev pub drawn : Option (ℕ × SharpLcd) → Option SharpLcd
drawn none = none
drawn (some (x, s)) = some s

-- One call; `none` is a loop of the display that has not stopped.
unfoldable pub play : ℕ → Fonts → Call → SharpLcd → Option SharpLcd
play fuel fonts (Call.rect_call x y w h black) s = fill_rect fuel x y w h black s
play fuel fonts (Call.dither_call x y w h luma) s = fill_dither fuel x y w h luma s
play fuel fonts (Call.hline_call x y w black) s = draw_hline fuel x y w black s
play fuel fonts (Call.text_call x y g black) s = drawn (draw_text fuel fonts x y g black s)
play fuel fonts (Call.big_call x y g black) s = drawn (draw_text_big fuel fonts x y g black s)
play fuel fonts (Call.bold_call x y g face black) s =
    drawn (draw_text_bold fuel fonts x y g face black s)

unfoldable pub replay : ℕ → Fonts → List Call → SharpLcd → Option SharpLcd
replay fuel fonts [] s = some s
replay fuel fonts (c ∷ cs) s = play fuel fonts c s >>= λ t. replay fuel fonts cs t

-- The rounds that are enough for each loop: one runs over 16 bits at most, or over the bytes of a
-- text.
abbrev rounds : Call → ℕ
rounds (Call.text_call x y g black) = length g
rounds (Call.big_call x y g black) = length g
rounds (Call.bold_call x y g face black) = length g
rounds _ = 65536

abbrev pub enough : List Call → ℕ
enough [] = 65536
enough (c ∷ cs) = max (rounds c) (enough cs)

-- A call whose edges fit the 16 bits of the counters.
abbrev pub Drawable : Call → Type 0
Drawable (Call.rect_call x y w h black) = (x + w ≤ 65535) × (y + h ≤ 65535)
Drawable (Call.dither_call x y w h luma) = Unit
Drawable (Call.hline_call x y w black) = x + w ≤ 65535
Drawable (Call.text_call x y g black) = x < 65536
Drawable (Call.big_call x y g black) = x < 65536
Drawable (Call.bold_call x y g face black) = x < 65536

-- Such a call ends, having written pixels only.
play-Draws :
    (fuel : ℕ) (fonts : Fonts) (c : Call) (s : SharpLcd)
    → IsStored s
    → Drawable c
    → rounds c < fuel
    → 65536 < fuel
    → (t : SharpLcd) × (play fuel fonts c s ≡ some t) × Draws s t
unfolding play
play-Draws fuel fonts (Call.rect_call x y w h black) s ok place few wide =
    let (t, e, painted) =
      fill_rect-IsPainted fuel x y w h black s ok (omega (arith, place)) (omega (arith, place))
        (omega (arith, place)) (omega (arith, place)) in
    (t, e, painted.drawn)
play-Draws fuel fonts (Call.dither_call x y w h luma) s ok place few wide =
    let (t, e, painted) = fill_dither-IsPainted fuel x y w h luma s ok (omega arith) in
    (t, e, painted.drawn)
play-Draws fuel fonts (Call.hline_call x y w black) s ok place few wide =
    let (t, e, painted) =
      draw_hline-IsPainted fuel x y w black s ok (omega (arith, place)) (omega (arith, place)) in
    (t, e, painted.drawn)
play-Draws fuel fonts (Call.text_call x y g black) s ok place few wide =
    let (t, e, d) =
      (text_calls-Ends fuel fonts x y g BoldFace.bold_inline black 1 s (omega (arith, place))
        few).0 in
    (t, rw e refl, d)
play-Draws fuel fonts (Call.big_call x y g black) s ok place few wide =
    let (t, e, d) =
      (text_calls-Ends fuel fonts x y g BoldFace.bold_inline black 1 s (omega (arith, place))
        few).1 in
    (t, rw e refl, d)
play-Draws fuel fonts (Call.bold_call x y g face black) s ok place few wide =
    let (t, e, d) =
      (text_calls-Ends fuel fonts x y g face black 1 s (omega (arith, place)) few).2 in
    (t, rw e refl, d)

-- The page's area is narrower.
StartsInside-Drawable : (c : Call) → StartsInside c → Drawable c
unfolding StartsInside
StartsInside-Drawable (Call.rect_call x y w h black) place = omega (arith, place)
StartsInside-Drawable (Call.dither_call x y w h luma) place = tt
StartsInside-Drawable (Call.hline_call x y w black) place = omega (arith, place)
StartsInside-Drawable (Call.text_call x y g black) place = omega (arith, place)
StartsInside-Drawable (Call.big_call x y g black) place = omega (arith, place)
StartsInside-Drawable (Call.bold_call x y g face black) place = omega (arith, place)

pub All-Drawable : (cs : List Call) → All StartsInside cs → All Drawable cs
All-Drawable [] inside = tt
All-Drawable (c ∷ cs) (place, rest) = (StartsInside-Drawable c place, All-Drawable cs rest)

enough-wide : (cs : List Call) → 65536 ≤ enough cs
enough-wide [] = omega arith
enough-wide (c ∷ cs) = omega (arith, enough-wide cs)

pub replay-Draws :
    (fuel : ℕ) (fonts : Fonts) (cs : List Call) (s : SharpLcd)
    → IsStored s
    → All Drawable cs
    → enough cs < fuel
    → (t : SharpLcd) × (replay fuel fonts cs s ≡ some t) × Draws s t
unfolding replay
replay-Draws fuel fonts [] s ok inside few = (s, refl, Draws.still)
replay-Draws fuel fonts (c ∷ cs) s ok (place, rest) few =
    let (t, e, d) =
      play-Draws fuel fonts c s ok place (omega (arith, few))
        (omega (arith, few, enough-wide cs)) in
    let (u, f, d') = replay-Draws fuel fonts cs t (Draws-IsStored ok d) rest (omega (arith, few)) in
    (u, rw (e, f) refl, Draws-trans d d')

-- From `begin` on, with no call made before, at a scroll offset of 16 bits, with a leading of a
-- byte and rows below 65000 pixels: what the events of a page, under the conditions of `PageEvent`,
-- ask of the display is carried out to its end by the driver on a framebuffer of bytes, with each
-- loop of the display within 65537 rounds, or within one round more than the longest of the texts
-- has bytes, if these are more. The framebuffer is one of bytes again, and a panel that showed
-- every clean line still does.
pub replay-Session :
    (fuel : ℕ) (fonts : Fonts) (scroll_y : ℕ) (p q : PageRenderer) (s : SharpLcd) (v : VirtualPanel)
    → scroll_y < 65536
    → p.leading < 256
    → height p < 65000
    → p.calls ≡ []
    → PageSession fonts (begin scroll_y p) q
    → enough q.calls < fuel
    → IsStored s
    → InSync s v
    → (t : SharpLcd) × (replay fuel fonts q.calls s ≡ some t) × IsStored t × InSync t v
replay-Session fuel fonts scroll_y p q s v scroll spread tall fresh run few ok sync =
    let (_, _, inside) =
      Session-IsLaidOut fonts scroll_y p q scroll spread tall (rw fresh tt) run in
    let (t, e, d) = replay-Draws fuel fonts q.calls s ok (All-Drawable q.calls inside) few in
    (t, e, Draws-IsStored ok d, Draws-InSync ok sync d)
