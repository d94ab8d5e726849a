-- ===== src/Render/PageTests.antt =====
-- The theorems on pages, tables, fields and links at concrete inputs, and single runs.
use thicket_firmware.Base.{
  ◌%◌, ◌+◌, if◌then◌else◌, ◌==◌, ◌≡◌, ◌≤◌, ◌<◌, ◌⊎◌, refl, arith, true, [], ◌∷◌,
}
use thicket_firmware.Base.Memory.{Memory}
use thicket_firmware.Lcd.Text.{Fonts}
use thicket_firmware.Render.State.{PageRenderer, page_renderer}
use thicket_firmware.Render.Page.{cells, note_missing, row_visible, screen_y, left_edge, newline}
use thicket_firmware.Render.Ink.{luma_of}
use thicket_firmware.Base.{ℕ, suc, All, some, none, inl, inr}
use thicket_firmware.Lcd.SharpLcd.{SharpLcd}
use thicket_firmware.Lcd.VirtualPanel.{power_up}
use thicket_firmware.Lcd.Pixels.{IsStored}
use thicket_firmware.Lcd.Sync.{InSync}
use thicket_firmware.Lcd.Session.{fresh-IsLive}
use thicket_firmware.Lcd.Text.{find, search}
use thicket_firmware.Lcd.TextCalls.{bold_w}
use thicket_firmware.Render.State.{Style, begin}
use thicket_firmware.Render.Page.{count_again, cells_from, seq_len, glyph_cp, height}
use thicket_firmware.Lcd.Text.{glyph_for, next_cp}
use thicket_firmware.Render.Faces.{has_glyph, note_face, paint_bg, advance, face_has, big_has}
use thicket_firmware.Render.Run.{
  word_glyph, is_space, run_loop, skip_spaces, word_end, hard_loop, word_loop, emit_run, guarded,
  emit_word, lead, underline_calls,
}
use thicket_firmware.Render.Links.{Boxed, on_link-links}
use thicket_firmware.Render.Events.{
  with_depth, on_link, record_link, at_edge, align_span, aligned_x, begin_text, on_text,
  divider_bytes, takes_face, choose_face, wanted_face, all_in_face, heading_cp,
}
use thicket_firmware.Base.{◌^◌, ltb, u16, ◌-◌}
use thicket_firmware.Render.State.{LinkBox}
use thicket_firmware.Render.Page.{line_h}
use thicket_firmware.Render.Fields.{field_bar}
use thicket_firmware.Render.Tables.{on_table_row}
use thicket_firmware.Render.Flush.{
  next_line, line_break, take_cells, back_up, skip_blanks, lines_needed, line_start, fit_columns,
  cap_columns, add_columns, scale_columns, scaled_width, widest_from,
}
use thicket_firmware.Render.StartsInside.{StartsInside}
use thicket_firmware.Render.Layout.{Starts}
use thicket_firmware.Render.Texts.{Continues}
use thicket_firmware.Render.Session.{PageEvent, PageSession, Session-IsLaidOut}
use thicket_firmware.Render.Replay.{enough, replay, replay-Session}
use thicket_firmware.Render.Buffer.{Placed}
use thicket_firmware.Render.Collect.{IsTable, on_table_row-IsTable}
use thicket_firmware.Render.Heading.{glyph_at, IsSequence, choose_face-face_has}
use thicket_firmware.Render.Endless.{field_bar-endless}
use thicket_firmware.Render.Samples.{fresh, letters, navy, noise, plain, plain_style, third, white}

fresh-Continues : Continues plain_style fresh
unfolding begin
fresh-Continues h = absurd (ground (arith, h))

fresh-Starts : Starts letters 5 (begin_text plain_style fresh)
fresh-Starts = inr (omega arith, inl (λ _. unfold is_space in refl))

one_text : PageSession plain fresh (on_text plain letters 5 plain_style fresh)
one_text =
    PageSession.next PageSession.start
      (PageEvent.text letters 5 plain_style fresh-Continues fresh-Starts)

Session-IsLaidOut_example :
    let q = on_text plain letters 5 plain_style fresh in
    (q.x ≤ 398) × (q.row_open ≡ true → left_edge q ≤ q.x) × All StartsInside q.calls
Session-IsLaidOut_example =
    Session-IsLaidOut plain 0 (page_renderer 2 true true true)
      (on_text plain letters 5 plain_style fresh) (omega arith) (omega arith) (omega arith) tt
      one_text

replay-Session_example :
    let q = on_text plain letters 5 plain_style fresh in
    (t : SharpLcd) × (replay (suc (enough q.calls)) plain q.calls white ≡ some t)
    × IsStored t
    × InSync t power_up
replay-Session_example =
    replay-Session (suc (enough (on_text plain letters 5 plain_style fresh).calls)) plain 0
      (page_renderer 2 true true true) (on_text plain letters 5 plain_style fresh) white power_up
      (omega arith) (omega arith) (omega arith) refl one_text (omega arith)
      (fresh-IsLive noise (λ i. omega arith)).stored (fresh-IsLive noise (λ i. omega arith)).sync

begun-IsTable : IsTable third.table
begun-IsTable = record {
  filled = record {
    widths = refl;
    offs = refl;
    lens = refl;
    full = omega arith;
    placed = unfold Placed in λ k h. absurd (omega (arith, h));
  };
  rows = omega arith;
  cols = omega arith;
}

on_table_row-IsTable_example :
    let t = (on_table_row letters 5 plain_style third).table in
    IsTable t
    × ((j : ℕ) → (j < third.table.tlen) ⊎ (1024 ≤ j) → t.tbuf j ≡ third.table.tbuf j)
    × (third.table.tlen ≤ t.tlen)
on_table_row-IsTable_example = on_table_row-IsTable letters 5 plain_style third begun-IsTable

-- Fonts whose large face has the letter.
abbrev titled : Fonts
titled = record plain { big = record { count = 1; cp = λ i. 0x41; rows = λ i. [] } }

abbrev title_style : Style
title_style = record plain_style { heading = true }

title_takes : takes_face titled letters 3 title_style fresh ≡ true
unfolding begin all_in_face big_has find search heading_cp seq_len
title_takes = refl

second_glyph : glyph_at 1 letters 0 < 3
unfolding glyph_at seq_len
second_glyph = omega arith

second-IsSequence : IsSequence letters (glyph_at 1 letters 0)
unfolding IsSequence
second-IsSequence = inl (omega arith)

choose_face-face_has_example :
    let q = choose_face titled letters 3 title_style fresh in
    (q.head ≡ wanted_face title_style)
    × (face_has titled (glyph_cp letters (glyph_at 1 letters 0)) q ≡ true)
choose_face-face_has_example =
    choose_face-face_has titled letters 3 title_style fresh 1 title_takes second_glyph
      second-IsSequence

navy_dark : luma_of navy < 128
unfolding luma_of
navy_dark = omega arith

-- A run of spaces.
abbrev spaces : Memory
spaces = λ i. 0x20

-- The state after 67 spaces on a fresh row: its pen is right of the margin.
abbrev spaced : PageRenderer
spaced = on_text plain spaces 67 (record plain_style { depth = 0 }) fresh

spaced_lem :
    (spaced.x ≡ 404) × (height spaced ≡ 15) × (row_visible spaced ≡ true) × (spaced.row_open ≡ true)
unfolding on_text begin at_edge align_span aligned_x cells cells_from seq_len advance choose_face
    emit_run guarded left_edge run_loop emit_word skip_spaces word_end is_space lead row_visible
    underline_calls paint_bg hard_loop word_loop newline screen_y luma_of bold_w
spaced_lem = (refl, refl, refl, refl)

field_bar-endless_example :
    replay 70000 plain (field_bar 24 true (luma_of navy) spaced) white ≡ none
field_bar-endless_example =
    field_bar-endless 70000 plain 24 (luma_of navy) spaced white spaced_lem.2
      (omega (arith, spaced_lem.0)) (omega (arith, spaced_lem.0)) (omega (arith, spaced_lem.1))
      navy_dark

-- Three wide columns and three narrow ones take 63 of the 60 cells that they are to share.
crowded : fit_columns 66 6 (33 ∷ 33 ∷ 33 ∷ 1 ∷ 1 ∷ 1 ∷ []) ≡ (19 ∷ 19 ∷ 19 ∷ 2 ∷ 2 ∷ 2 ∷ [], true)
unfolding fit_columns cap_columns add_columns scale_columns scaled_width widest_from
crowded = refl

-- A divider of U+1F310 is not drawn with the bytes of that character.
globe : divider_bytes 0x1F310 ≡ 0xFF ∷ 0x8C ∷ 0x90 ∷ []
unfolding divider_bytes
globe = refl

on_link-links_example :
    let begun = at_edge (with_depth plain_style third) in
    let r = emit_run plain letters 5 begun.invert begun in
    let box : LinkBox = record {
      x = begun.x;
      y = u16 (begun.y + 2 ^ 16 - begun.scroll);
      w = u16 (if ltb begun.x r.x then r.x - begun.x else 0);
      h = if r.row_h == 0 then line_h r else r.row_h;
      target = letters;
      target_len = u16 5;
    } in
    Boxed third.links third.links_overflowed box
      (row_visible r)
      (on_link plain letters 5 letters 5 plain_style third)
on_link-links_example = on_link-links plain letters 5 letters 5 plain_style third (omega arith)

-- A link whose label goes to a new row, 15 pixels below, gets a box without a width on the row that
-- it left.
abbrev wrapped : PageRenderer
wrapped = on_link plain letters 5 letters 5 plain_style third

wrapped_box :
    wrapped.links ≡ record { x = 380; y = 15; w = 0; h = 15; target = letters; target_len = 5 } ∷ []
unfolding on_link record_link at_edge left_edge emit_run guarded run_loop emit_word skip_spaces
    word_end is_space lead row_visible screen_y newline word_loop word_glyph cells cells_from
    seq_len advance note_face face_has has_glyph glyph_for find search count_again note_missing
    hard_loop next_cp
wrapped_box = refl

-- Words of six letters.
abbrev sixes : Memory
sixes i = if i % 7 == 6 then 0x20 else 0x41

-- Six columns of 33 cells or more are scaled to ten cells each, and a cell of 255 bytes of such words
-- is counted as 32 lines, of which the last ends before the 31 bytes that are left.
six_columns :
    fit_columns 66 6 (33 ∷ 33 ∷ 33 ∷ 33 ∷ 33 ∷ 33 ∷ []) ≡ (10 ∷ 10 ∷ 10 ∷ 10 ∷ 10 ∷ 10 ∷ [], true)
unfolding fit_columns cap_columns add_columns scale_columns scaled_width widest_from
six_columns = refl

lost_lines : (lines_needed 32 sixes 255 10 0 ≡ 32) × (line_start 32 sixes 255 10 0 ≡ 224)
unfolding lines_needed line_start next_line line_break take_cells back_up skip_blanks seq_len
lost_lines = (refl, refl)
