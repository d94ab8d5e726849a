-- ===== src/Render/ComposeTests.antt =====
-- A page that is composed.
use thicket_firmware.Base.{false, ◌+◌, List, if◌then◌else◌, ◌==◌, ◌≡◌, ◌≤◌, refl, arith, true}
use thicket_firmware.Base.Memory.{Memory}
use thicket_firmware.Render.State.{PageRenderer, page_renderer}
use thicket_firmware.Render.Page.{cells, note_missing, row_visible, screen_y, left_edge, newline}
use thicket_firmware.Render.Ink.{luma_of}
use thicket_firmware.Base.{ℕ, suc, some, inl, inr}
use thicket_firmware.Lcd.SharpLcd.{SharpLcd}
use thicket_firmware.Lcd.VirtualPanel.{power_up}
use thicket_firmware.Lcd.Sync.{InSync}
use thicket_firmware.Lcd.Session.{fresh-IsLive}
use thicket_firmware.Lcd.Text.{find, search}
use thicket_firmware.Lcd.TextCalls.{bold_w}
use thicket_firmware.Render.State.{begin}
use thicket_firmware.Render.Page.{count_again, cells_from, seq_len}
use thicket_firmware.Lcd.Text.{glyph_for, next_cp}
use thicket_firmware.Render.Faces.{has_glyph, note_face, paint_bg, advance, face_has}
use thicket_firmware.Render.Run.{
  word_glyph, is_space, run_loop, skip_spaces, word_end, hard_loop, word_loop, emit_run, guarded,
  emit_word, lead, underline_calls,
}
use thicket_firmware.Render.Events.{at_edge, align_span, aligned_x, on_text, choose_face}
use thicket_firmware.Lcd.SharpLcd.{BusOp, fill_white, init}
use thicket_firmware.Lcd.VirtualPanel.{drive}
use thicket_firmware.Lcd.Sync.{IsShown}
use thicket_firmware.Render.Events.{on_line_end}
use thicket_firmware.Render.Run.{from}
use thicket_firmware.Render.Compose.{
  Reports, newline_from, compose_line, compose_lines, compose_page, compose_page-IsShown,
}
use thicket_firmware.Render.Texts.{Continues}
use thicket_firmware.Render.Session.{PageEvent, PageSession}
use thicket_firmware.Render.Replay.{enough}
use thicket_firmware.Render.Samples.{fresh, noise, plain, plain_style, white}

fresh-Continues : Continues plain_style fresh
unfolding begin
fresh-Continues h = absurd (ground (arith, h))

-- A parser that reports each line as a text and the end of the line.
abbrev texts : Memory → ℕ → ℕ → PageRenderer → ℕ × PageRenderer
texts t n lines r = (lines + 1, on_line_end plain_style (on_text plain t n plain_style r))

-- Two lines of one letter.
abbrev two_lines : Memory
two_lines i = if i == 1 then 0x0A else 0x41

abbrev renderer : PageRenderer
renderer = page_renderer 2 true true true

same_inversion : power_up.vcom ≡ white.vcom
unfolding power_up fill_white init
same_inversion = refl

-- A line that does not begin with a space, on rows of the style's depth.
text_line :
    (t : Memory) (p : PageRenderer)
    → is_space (t 0) ≡ false
    → Continues plain_style p
    → Continues plain_style (on_text plain t 1 plain_style p)
    → PageSession plain p (on_line_end plain_style (on_text plain t 1 plain_style p))
text_line t p dark deep deep' =
    PageSession.next
      (PageSession.next PageSession.start
        (PageEvent.text t 1 plain_style deep (inr (omega arith, inl (λ _. dark)))))
      (PageEvent.line_end plain_style deep')

abbrev first_text : PageRenderer
first_text = on_text plain (from two_lines 0) 1 plain_style (begin 0 renderer)

abbrev first_line : PageRenderer
first_line = on_line_end plain_style first_text

abbrev second_text : PageRenderer
second_text = on_text plain (from two_lines 2) 1 plain_style first_line

letter_dark : (is_space (from two_lines 0 0) ≡ false) × (is_space (from two_lines 2 0) ≡ false)
unfolding is_space
letter_dark = (refl, refl)

lines-Continues :
    Continues plain_style first_text
    × Continues plain_style first_line
    × Continues plain_style second_text
unfolding on_text begin at_edge align_span aligned_x cells cells_from seq_len advance choose_face
    emit_run guarded left_edge run_loop emit_word skip_spaces word_end is_space lead row_visible
    underline_calls paint_bg hard_loop word_loop newline screen_y luma_of bold_w on_line_end
    word_glyph note_face face_has has_glyph glyph_for find search note_missing count_again next_cp
lines-Continues = ((λ _. refl), (λ _. refl), (λ _. refl))

two_lines-Reports : Reports 0 texts plain 4 two_lines 3 0 0 (begin 0 renderer)
unfolding Reports compose_line newline_from
two_lines-Reports = (
  (λ _.
      text_line (from two_lines 0) (begin 0 renderer) letter_dark.0 fresh-Continues
        lines-Continues.0),
  λ _. (
    (λ _.
        text_line (from two_lines 2) first_line letter_dark.1 lines-Continues.1 lines-Continues.2),
    λ h. absurd (omega (arith, h)),
  ),
)

compose_page-IsShown_example :
    let fuel = suc (enough (compose_lines 0 texts 4 two_lines 3 0 0 (begin 0 renderer)).calls) in
    (q : PageRenderer) × (t : SharpLcd) × (ops : List BusOp) × (compose_page 0 texts fuel plain
        two_lines 3 0 renderer white
      ≡ some (q.y, q, t, ops))
    × (q.x ≤ 398)
    × IsShown t (drive ops power_up)
    × InSync t (drive ops power_up)
compose_page-IsShown_example =
    compose_page-IsShown 0 texts plain
      (suc (enough (compose_lines 0 texts 4 two_lines 3 0 0 (begin 0 renderer)).calls)) two_lines 3
      0 renderer white power_up (omega arith) (omega arith) (omega arith) refl
      (fresh-IsLive noise (λ i. omega arith)).stored same_inversion two_lines-Reports (omega arith)
