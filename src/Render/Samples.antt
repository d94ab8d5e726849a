-- ===== src/Render/Samples.antt =====
-- Rows, pages and fonts that the tests share.
use thicket_firmware.Base.{true, false, [], ◌∷◌}
use thicket_firmware.Base.Memory.{Memory}
use thicket_firmware.Lcd.Text.{Fonts, Table}
use thicket_firmware.Render.State.{PageRenderer, page_renderer}
use thicket_firmware.Render.Ink.{Color}
use thicket_firmware.Lcd.SharpLcd.{SharpLcd, init, fill_white}
use thicket_firmware.Render.State.{Align, Style, begin}

-- The third row of a page that is scrolled by one row; one codepoint was missing so far.
abbrev pub third : PageRenderer
third = record (page_renderer 2 true true true) {
  scroll = 15;
  y = 30;
  x = 380;
  row_open = true;
  depth = 7;
  blank_pending = false;
  missing = record { cp = 0x4E00; n = 2 } ∷ [];
  missing_total = 2;
}

abbrev pub no_glyphs : Table
no_glyphs = record { count = 0; cp = λ i. 0; rows = λ i. [] }

abbrev pub plain : Fonts
plain = record {
  font = λ i. 0x80 ∷ [];
  extra = no_glyphs;
  big = no_glyphs;
  bold6 = no_glyphs;
  bold7 = no_glyphs;
  bold8 = no_glyphs;
}

-- A run of letters.
abbrev pub letters : Memory
letters = λ i. 0x41

abbrev pub navy : Color
navy = record { is_default = false; is_valid = true; rgb = 0x000080 }

abbrev pub fresh : PageRenderer
fresh = begin 0 (page_renderer 2 true true true)

abbrev pub plain_style : Style
plain_style = record {
  depth = 1;
  align = Align.left;
  bg = navy;
  heading = false;
  bold = true;
  underline = true;
  literal = false;
}

abbrev pub noise : Memory
noise = λ i. 0x5A

abbrev pub white : SharpLcd
white = fill_white (init noise)
