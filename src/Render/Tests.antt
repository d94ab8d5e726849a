-- ===== src/Render/Tests.antt =====
-- The theorems on the renderer's steps at concrete inputs.
use thicket_firmware.Base.{
  ℕ, ◌+◌, ◌≡◌, ◌≤◌, ◌<◌, arith, ◌||◌, ◌&&◌, not, if◌then◌else◌, ◌==◌, u16, u32, length,
}
use thicket_firmware.Render.Page.{note_missing}
use thicket_firmware.Render.Missing.{tally, known, has_room, note_missing-tally}
use thicket_firmware.Render.Flush.{lines_needed, line_start}
use thicket_firmware.Render.Lines.{DrawsSome, lines_needed-line_start}
use thicket_firmware.Render.Samples.{letters, third}

note_missing-tally_example :
    ((note_missing 0x4E00 third).missing_total ≡ u32 (third.missing_total + 1))
    × (tally 0x4E00 (note_missing 0x4E00 third).missing ≡ (
        if 0x4E00 == 0x4E00 && has_room 0x4E00 third
        then u16 (tally 0x4E00 third.missing + 1)
        else tally 0x4E00 third.missing))
    × (known 0x4E00 (note_missing 0x4E00 third).missing
        ≡ known 0x4E00 third.missing || (0x4E00 == 0x4E00 && has_room 0x4E00 third))
    × ((note_missing 0x4E00 third).missing_over ≡ third.missing_over || not (has_room 0x4E00 third))
    × (length (note_missing 0x4E00 third).missing ≤ 24)
note_missing-tally_example = note_missing-tally 0x4E00 0x4E00 third (omega arith)

lines_needed-line_start_example :
    ((pass : ℕ)
      → pass < lines_needed 32 letters 9 4 0
      → DrawsSome letters 9 4 (line_start pass letters 9 4 0))
    × (lines_needed 32 letters 9 4 0 < 32
        → 9 ≤ line_start (lines_needed 32 letters 9 4 0) letters 9 4 0)
lines_needed-line_start_example = lines_needed-line_start letters 9 4 (omega arith)
