-- ===== src/FirstLight/Pattern.antt =====
-- The test pattern, `setup` and `loop`. The drawing calls stand in a list, in their order, and are
-- carried out by `replay`.
use thicket_firmware.Base.{
  ℕ, ◌+◌, ◌-◌, ◌*◌, ◌/◌, ◌^◌, ◌≤◌, ◌<◌, ◌≡◌, ◌⊎◌, inl, inr, refl, arith, true, Option, some, List,
  [], ◌∷◌, ◌++◌, All, ◌>>=◌, ltb, leb, if◌then◌else◌, Bool-cases, codes, u16, u32,
}
use thicket_firmware.Lcd.SharpLcd.{
  SharpLcd, BusOp, clear, fill_white, flush, toggle_vcom, lcd_width, lcd_height,
}
use thicket_firmware.Lcd.VirtualPanel.{VirtualPanel, drive}
use thicket_firmware.Lcd.Text.{Fonts, big_font_w, big_font_h}
use thicket_firmware.Lcd.Sync.{IsShown, InSync, flush_shows}
use thicket_firmware.Lcd.Draw.{Draws-InSync}
use thicket_firmware.Lcd.Session.{IsLive, clear-IsLive, fill_white-IsLive, toggle_vcom-IsLive}
use thicket_firmware.Render.State.{Call}
use thicket_firmware.Render.Replay.{replay, replay-Draws, enough, Drawable}

abbrev pub vcom_period_ms : ℕ
vcom_period_ms = 1000

abbrev pub text_left : ℕ
text_left =
    let tw = u16 (big_font_w * 12) in if ltb tw lcd_width then u16 ((lcd_width - tw) / 2) else 4

abbrev pub ramp_block : ℕ → Call
ramp_block i = Call.dither_call (u16 (120 + i * 60)) 30 50 40 (40 + i * 55)

-- What `draw_pattern` draws after `fill_white`.
abbrev pub pattern_calls : List Call
pattern_calls =
    Call.hline_call 0 0 lcd_width true
    ∷ Call.hline_call 0 (lcd_height - 1) lcd_width true
    ∷ Call.rect_call 0 0 1 lcd_height true
    ∷ Call.rect_call (lcd_width - 1) 0 1 lcd_height true
    ∷ Call.rect_call 10 10 40 40 true
    ∷ Call.rect_call (lcd_width - 10 - 24) 10 24 24 true
    ∷ Call.rect_call 10 (lcd_height - 10 - 16) 16 16 true
    ∷ Call.rect_call (lcd_width - 10 - 8) (lcd_height - 10 - 8) 8 8 true
    ∷ ramp_block 0
    ∷ ramp_block 1
    ∷ ramp_block 2
    ∷ ramp_block 3
    ∷ Call.big_call text_left 130 (codes "SHARP LCD OK") true
    ∷ Call.text_call text_left (130 + big_font_h + 8) (codes "border + blocks + text = wiring good")
        true
    ∷ []

unfoldable pub draw_pattern : ℕ → Fonts → SharpLcd → Option (SharpLcd × List BusOp)
draw_pattern fuel fonts s =
    replay fuel fonts pattern_calls (fill_white s) >>= λ t. some ((flush t).1, (flush t).2)

-- `setup`: the panel is cleared first.
unfoldable pub setup : ℕ → Fonts → SharpLcd → Option (SharpLcd × List BusOp)
setup fuel fonts s =
    let (t, ops) = clear s in draw_pattern fuel fonts t >>= λ r. some (r.0, ops ++ r.1)

-- One round of `loop`: the time of the last toggle, the driver, and what it sends.
unfoldable pub loop : ℕ → ℕ → SharpLcd → ℕ × SharpLcd × List BusOp
loop now last s =
    if leb vcom_period_ms (u32 (now + 2 ^ 32 - last))
    then (now, (toggle_vcom s).0, (toggle_vcom s).1)
    else (last, s, [])

drive-append : (xs ys : List BusOp) (p : VirtualPanel) → drive (xs ++ ys) p ≡ drive ys (drive xs p)
unfolding drive
drive-append [] ys p = refl
drive-append (x ∷ xs) ys p = drive-append xs ys _

pattern-Drawable : All Drawable pattern_calls
pattern-Drawable = omega arith

pattern-enough : enough pattern_calls ≡ 65536
pattern-enough = omega arith

-- With driver and panel in step, `setup` ends, whatever the fonts hold: 65537 rounds are enough for
-- each loop of the display. Afterwards the panel shows the framebuffer on every line, and driver
-- and panel are in step.
pub setup-IsShown :
    (fuel : ℕ) (fonts : Fonts) (s : SharpLcd) (v : VirtualPanel)
    → IsLive s v
    → 65536 < fuel
    → (t : SharpLcd) × (ops : List BusOp) × (setup fuel fonts s ≡ some (t, ops))
      × IsShown t (drive ops v)
      × InSync t (drive ops v)
unfolding setup draw_pattern
setup-IsShown fuel fonts s v live few =
    let v' : VirtualPanel = drive (clear s).1 v in
    let cleared = (clear-IsLive live).0 in
    let white : IsLive (fill_white (clear s).0) v' =
      fill_white-IsLive cleared.stored cleared.sync.inversion in
    let (t, e, drawn) =
      replay-Draws fuel fonts pattern_calls (fill_white (clear s).0) white.stored pattern-Drawable
        (omega (arith, pattern-enough)) in
    let shown = flush_shows t v' (Draws-InSync white.stored white.sync drawn) in
    let over = drive-append (clear s).1 (flush t).2 v in
    ((flush t).1, (clear s).1 ++ (flush t).2, rw e refl, rw over shown.0, rw over shown.1)

-- On a clock of 32 bits that wraps, `elapsed` milliseconds after the last toggle, fewer than 2^32,
-- a round of `loop` toggles exactly if 1000 or more have passed, and takes the time as that of the
-- last toggle; otherwise it sends nothing. Driver and panel stay in step, and the framebuffer is
-- as it was.
pub loop-IsLive :
    (last elapsed : ℕ) (s : SharpLcd) (v : VirtualPanel)
    → last < 2 ^ 32
    → elapsed < 2 ^ 32
    → IsLive s v
    → let now = u32 (last + elapsed) in
      let r = loop now last s in
      (((1000 ≤ elapsed) × (r ≡ (now, (toggle_vcom s).0, (toggle_vcom s).1)))
        ⊎ ((elapsed < 1000) × (r ≡ (last, s, []))))
      × IsLive r.1 (drive r.2 v)
      × (r.1.fb ≡ s.fb)
unfolding loop
loop-IsLive last elapsed s v h k live =
    let now = u32 (last + elapsed) in
    let passed : u32 (now + 2 ^ 32 - last) ≡ elapsed = omega arith in
    elim (Bool-cases (leb 1000 elapsed)) [
      | inl due ↦
          rw passed
            (rw due (inl (ground arith, refl), toggle_vcom-IsLive live, unfold toggle_vcom in refl))
      | inr early ↦ rw passed (rw early (inr (ground arith, refl), unfold drive in live, refl))
    ]
