-- ===== src/Render/Compose.antt =====
-- lib/MicronRender/src/ComposePage.h: a page from its source to the panel. The parser is another
-- library's, and a parameter: its state, what it is after a reset, and what a line does.
use thicket_firmware.Base.{
  ℕ, zero, suc, ◌+◌, ◌-◌, ◌≤◌, ◌<◌, ◌≡◌, refl, arith, not, ◌&&◌, List, [], Option, some, ◌>>=◌, ltb,
  leb, ◌==◌, if◌then◌else◌, Bool-cases, inl, inr,
}
use thicket_firmware.Base.Memory.{Memory}
use thicket_firmware.Lcd.SharpLcd.{SharpLcd, BusOp, fill_white, flush}
use thicket_firmware.Lcd.VirtualPanel.{VirtualPanel, drive}
use thicket_firmware.Lcd.Pixels.{IsStored}
use thicket_firmware.Lcd.Sync.{IsShown, InSync, flush_shows}
use thicket_firmware.Lcd.Draw.{Draws-InSync}
use thicket_firmware.Lcd.Session.{fill_white-IsLive}
use thicket_firmware.Lcd.Text.{Fonts}
use thicket_firmware.Render.State.{PageRenderer, begin}
use thicket_firmware.Render.Page.{blank_line, height}
use thicket_firmware.Render.Run.{from}
use thicket_firmware.Render.Layout.{IsLaidOut}
use thicket_firmware.Render.Session.{PageSession, Session-keeps, begin-IsLaidOut}
use thicket_firmware.Render.Replay.{replay, enough, replay-Draws, All-Drawable}

-- The end of the line at `e`, by the rounds left.
unfoldable pub newline_from : ℕ → Memory → ℕ → ℕ → ℕ
newline_from zero src len e = e
newline_from (suc left) src len e =
    let rest = newline_from left src len (e + 1) in
    if ltb e len && not (src e == 0x0A) then rest else e

module _ {S : Type 0} (fresh : S)
    (parse_line : Memory → ℕ → S → PageRenderer → S × PageRenderer) where
  -- The line from `i` to `e`.
  unfoldable pub compose_line : Memory → ℕ → ℕ → S → PageRenderer → S × PageRenderer
  compose_line src i e p r =
      if e == i then (p, blank_line r) else parse_line (from src i) (e - i) p r

  -- `while (i <= len)`. A round passes a byte or more, so that `len + 1` rounds are enough.
  unfoldable pub compose_lines : ℕ → Memory → ℕ → ℕ → S → PageRenderer → PageRenderer
  compose_lines zero src len i p r = r
  compose_lines (suc left) src len i p r =
      let e = newline_from (len - i) src len i in
      let (p', r') = compose_line src i e p r in
      let rest = compose_lines left src len (e + 1) p' r' in
      if leb i len then (if leb len e then r' else rest) else r

  -- The height, the renderer and the driver afterwards, and what the driver sent.
  unfoldable pub compose_page :
      ℕ
      → Fonts
      → Memory
      → ℕ
      → ℕ
      → PageRenderer
      → SharpLcd
      → Option (ℕ × PageRenderer × SharpLcd × List BusOp)
  compose_page fuel fonts src len scroll r s =
      let laid_out = compose_lines (len + 1) src len 0 fresh (begin scroll r) in
      replay fuel fonts laid_out.calls (fill_white s) >>= λ t.
      some (laid_out.y, laid_out, (flush t).1, (flush t).2)

  module _ (fonts : Fonts) where
    -- From `i` on, the parser reports each line of the source, in the state that the lines before
    -- it have left parser and renderer in, as events that PageEvent allows.
    unfoldable pub Reports : ℕ → Memory → ℕ → ℕ → S → PageRenderer → Type 0
    Reports zero src len i p r = Unit
    Reports (suc left) src len i p r =
        let e = newline_from (len - i) src len i in
        let (p', r') = compose_line src i e p r in
        (i ≤ len → PageSession fonts r r') × (e < len → Reports left src len (e + 1) p' r')

    compose_lines-IsLaidOut :
        (left : ℕ) (src : Memory) (len i : ℕ) (p : S) (r : PageRenderer)
        → Reports left src len i p r
        → IsLaidOut r
        → IsLaidOut (compose_lines left src len i p r)
    unfolding compose_lines Reports
    compose_lines-IsLaidOut zero src len i p r reports ok = ok
    compose_lines-IsLaidOut (suc left) src len i p r reports ok =
        let e = newline_from (len - i) src len i in
        let (p', r') = compose_line src i e p r in
        elim (Bool-cases (leb i len)) [
          | inr past ↦ rw past ok
          | inl within ↦
              let next = Session-keeps fonts r r' (reports.0 (ground (arith, within))) ok in
              elim (Bool-cases (leb len e)) [
                | inl last ↦ rw (within, last) next
                | inr more ↦
                    rw (within, more)
                      (compose_lines-IsLaidOut left src len (e + 1) p' r'
                        (reports.1 (ground (arith, more))) next)
              ]
        ]

    -- Where the parser reports the lines of this page, each in the state that it is met in, as
    -- events that PageEvent allows, composing the page ends with each loop of the display within
    -- 65537 rounds, or one round more than the longest text has bytes, and the panel then shows
    -- the framebuffer on every line and is in step with the driver; the pen is left of the right
    -- margin. The renderer had asked for nothing before, the scroll offset is of 16 bits, the
    -- leading of a byte and rows are below 65000 pixels; driver and panel agreed on the frame
    -- inversion and the framebuffer was of bytes, whatever the panel showed.
    pub compose_page-IsShown :
        (fuel : ℕ) (src : Memory) (len scroll : ℕ) (r : PageRenderer) (s : SharpLcd)
        (v : VirtualPanel)
        → scroll < 65536
        → r.leading < 256
        → height r < 65000
        → r.calls ≡ []
        → IsStored s
        → v.vcom ≡ s.vcom
        → Reports (len + 1) src len 0 fresh (begin scroll r)
        → enough (compose_lines (len + 1) src len 0 fresh (begin scroll r)).calls < fuel
        → (q : PageRenderer) × (t : SharpLcd) × (ops : List BusOp) × (compose_page fuel fonts src
              len scroll r s
            ≡ some (q.y, q, t, ops))
          × (q.x ≤ 398)
          × IsShown t (drive ops v)
          × InSync t (drive ops v)
    unfolding compose_page
    compose_page-IsShown fuel src len scroll r s v low spread tall none_yet stored same reports
          few =
        let begun = begin-IsLaidOut scroll r low spread tall (rw none_yet tt) in
        let q = compose_lines (len + 1) src len 0 fresh (begin scroll r) in
        let ok = compose_lines-IsLaidOut (len + 1) src len 0 fresh (begin scroll r) reports begun in
        let live = fill_white-IsLive stored same in
        let (t, e, drawn) =
          replay-Draws fuel fonts q.calls (fill_white s) live.stored
            (All-Drawable q.calls ok.inside) few in
        let shown = flush_shows t v (Draws-InSync live.stored live.sync drawn) in
        (q, (flush t).1, (flush t).2, rw e refl, ok.pen, shown.0, shown.1)
