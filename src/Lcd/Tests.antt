-- ===== src/Lcd/Tests.antt =====
-- The display's theorems at concrete inputs.
use thicket_firmware.Base.{
  ℕ, ◌+◌, ◌*◌, ◌<◌, ◌≡◌, arith, true, false, List, [], ◌∷◌, ◌++◌, some, length, u32,
}
use thicket_firmware.Base.Memory.{Memory}
use thicket_firmware.Lcd.SharpLcd.{
  SharpLcd, init, fill_white, set_pixel, get_pixel, is_dirty, dirty_lines, flush,
}
use thicket_firmware.Lcd.VirtualPanel.{power_up, drive, pixel}
use thicket_firmware.Lcd.Pixels.{IsStored}
use thicket_firmware.Lcd.Sync.{InSync, IsShown, flush_shows}
use thicket_firmware.Lcd.Draw.{Draws}
use thicket_firmware.Lcd.Session.{Step, Reach, fresh-IsLive, flush_shows_pixels}
use thicket_firmware.Lcd.Fill.{fill_rect}
use thicket_firmware.Lcd.Area.{IsPainted, rect, fill_rect-IsPainted}
use thicket_firmware.Lcd.Text.{Fonts, Table, search, find, emoji}
use thicket_firmware.Lcd.TextCalls.{
  draw_text, draw_text_big, draw_text_bold, draw_text_scaled, bold_w, bold_h3,
}
use thicket_firmware.Lcd.Walks.{Ends, codepoints, scaled_w, text_calls-Ends}
use thicket_firmware.Lcd.Utf8.{utf8, decode, decode-utf8}
use thicket_firmware.Lcd.Search.{IsFound, emoji-IsSorted, find-IsFound}
use thicket_firmware.Lcd.TextLaws.{utf8s, line_ink, draw_text-IsPainted}

abbrev noise : Memory
noise = λ i. 0x55

abbrev dark : SharpLcd
dark = record { fb = noise; dirty = λ i. 0; vcom = false }

dark-IsStored : IsStored dark
dark-IsStored = record { fb = λ i. omega arith; dirty = λ i. omega arith }

-- The driver at start, and after one pixel.
abbrev start : SharpLcd
start = fill_white (init noise)

abbrev dotted : SharpLcd
dotted = set_pixel 3 5 true start

dotted-Reach : Reach start power_up dotted power_up
dotted-Reach = Reach.next Reach.here (Step.draw (Draws.ink 3 5 true Draws.still))

flush_shows_pixels_example :
    pixel 3 5 (drive (flush dotted).2 power_up) ≡ get_pixel 3 5 (flush dotted).1
flush_shows_pixels_example = flush_shows_pixels noise 3 5 (λ i. omega arith) dotted-Reach

flush_shows_example :
    IsShown (flush start).1 (drive (flush start).2 power_up)
    × InSync (flush start).1 (drive (flush start).2 power_up)
    × ((r : ℕ) → r < 240 → is_dirty r (flush start).1 ≡ false)
    × ((flush start).1.fb ≡ start.fb)
    × ((flush start).0 ≡ dirty_lines start)
    × (u32 (drive (flush start).2 power_up).lines_written
        ≡ u32 (power_up.lines_written + (flush start).0))
    × ((drive (flush start).2 power_up).overflowed ≡ power_up.overflowed)
    × ((drive (flush start).2 power_up).clears ≡ power_up.clears)
    × ((drive (flush start).2 power_up).vcom_toggles ≡ power_up.vcom_toggles)
flush_shows_example = flush_shows start power_up (fresh-IsLive noise (λ i. omega arith)).sync

fill_rect-IsPainted_example :
    (t : SharpLcd) × (fill_rect 5 398 1 4 2 true dark ≡ some t)
    × IsPainted (rect 398 1 (398 + 4) (1 + 2)) true dark t
fill_rect-IsPainted_example =
    fill_rect-IsPainted 5 398 1 4 2 true dark dark-IsStored (omega arith) (omega arith)
      (omega arith) (omega arith)

decode-utf8_example : decode (utf8 0x20AC ++ 0x21 ∷ []) ≡ (0x20AC, 0x21 ∷ [])
decode-utf8_example = decode-utf8 0x20AC (0x21 ∷ []) (omega arith)

find-IsFound_example :
    (search 9 emoji 0 8 0x1F514 ≡ some (find emoji 0x1F514))
    × IsFound emoji 0x1F514 (find emoji 0x1F514)
unfolding emoji
find-IsFound_example = find-IsFound emoji 0x1F514 emoji-IsSorted

-- Fonts in which every printable ASCII character is one dot.
abbrev no_table : Table
no_table = record { count = 0; cp = λ i. 0; rows = λ i. [] }

abbrev dots : Fonts
dots = record {
  font = λ i. 0x80 ∷ [];
  extra = no_table;
  big = no_table;
  bold6 = no_table;
  bold7 = no_table;
  bold8 = no_table;
}

-- A, a euro sign and a bell.
abbrev word : List ℕ
word = 0x41 ∷ 0x20AC ∷ 0x1F514 ∷ []

draw_text-IsPainted_example :
    (t : SharpLcd) × (draw_text 4 dots 10 20 (utf8s word) true dark
      ≡ some (10 + 6 * length word, t))
    × IsPainted (line_ink dots word 10 20) true dark t
draw_text-IsPainted_example =
    draw_text-IsPainted 4 dots 10 20 word true dark dark-IsStored
      ((omega arith, omega arith), ((omega arith, omega arith), ((omega arith, omega arith), tt)))
      (omega arith) (omega arith) (omega arith)

-- A lone lead byte at the end, which is malformed.
abbrev broken : List ℕ
broken = 0x41 ∷ 0xE2 ∷ 0x82 ∷ []

text_calls-Ends_example :
    Ends 6 (codepoints 4 broken) 10 dark (draw_text 4 dots 10 20 broken true dark)
    × Ends 12 (codepoints 4 broken) 10 dark (draw_text_big 4 dots 10 20 broken true dark)
    × Ends
        (bold_w bold_h3)
        (codepoints 4 broken)
        10
        dark
        (draw_text_bold 4 dots 10 20 broken bold_h3 true dark)
    × Ends
        (scaled_w 3)
        (codepoints 4 broken)
        10
        dark
        (draw_text_scaled 4 dots 10 20 broken true 3 dark)
text_calls-Ends_example =
    text_calls-Ends 4 dots 10 20 broken bold_h3 true 3 dark (omega arith) (omega arith)
