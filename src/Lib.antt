-- ===== src/Lib.antt =====
-- A verification library for the Thicket firmware, the program of a handheld Reticulum terminal:
-- its keypad, its display, its page renderer, its application, and the desktop browser that shares
-- the renderer.
--
-- The program. A TCA8418 scans the key matrix and queues key events; the firmware polls it over
-- I2C (lib/Keypad/src/Tca8418.cpp), maps row and column to a key code, and hands the code to the
-- input layer (lib/Keypad/src/InputLayer.cpp), which makes characters and actions of it, with
-- one-shot modifiers and a guard against ghost keys. The screen is a memory LCD. The driver
-- (lib/SharpLcd/src/SharpLcd.cpp) keeps the only copy of the picture, a framebuffer of 240 lines of
-- 50 bytes, with one dirty bit for each line; drawing calls change the framebuffer and set dirty
-- bits, and `flush` sends the dirty lines. On the host the bytes go to a decoder instead of a panel
-- (lib/SharpLcd/src/VirtualPanel.cpp). The page renderer lays a page out row by row and draws the
-- rows inside the scroll window. The application (src/main.cpp) brings the parts up in order, opens
-- or makes the identity, and then runs one task round by round, which takes messages in, answers
-- them with a line of diagnostics, and announces the device. A sketch of its own
-- (src/display_bringup.cpp) draws a test picture over pins. The desktop browser
-- (desktop/browser.cpp) shows pages with the same renderer and display driver, and fetches those that
-- it does not hold (desktop/LiveFetch.cpp).
--
-- The files.
--   Base: names, lists, machine words, byte memories and bit operations that the parts share;
--     Picks is the order of a list's members when some are left out.
--   Keypad.Tca8418: the registers (Reg), `decode`, `begin` and `poll` over any register bus, as
--     functions of the bus state. A read that fails gives `none`. FakeBus is the scripted bus of
--     test/test_tca8418/test_tca8418.cpp. Decode, Poll and Config hold the theorems.
--   Keypad.InputLayer: `key_down`, `key_up` and `reset` on the array `_down` and its count.
--     Held reads the array as a list; Spec is the specification on that list, and the refinement;
--     Guard states what the guard and the modifiers promise.
--   Lcd.SharpLcd: the driver's state and its operations. What it sends is a list of its calls on
--     the bus. Lcd.VirtualPanel: the decoder, driven by such a list.
--   Lcd.Dirty, Lcd.Pixels, Lcd.Wire, Lcd.Sync: dirty bits, single pixels, the byte stream of a
--     flush, and what a flush leaves on the panel. Lcd.Draw and Lcd.Session: sequences of pixel
--     writes, and of calls of the driver, as relations.
--   Lcd.Fill: `draw_hline`, `fill_rect`, `fill_dither`; Lcd.Area: what they paint and when they end.
--   Lcd.Text: the UTF-8 decoder, the tables and the glyphs; Lcd.TextCalls: the four text calls.
--     Lcd.Utf8, Lcd.Search, Lcd.Braille, Lcd.Glyphs, Lcd.TextLaws and Lcd.Walks: the theorems.
--   Render: the page renderer (lib/MicronRender/src/MicronRender.{h,cpp}), with its calls of the
--     display as a list. State: the state of the class, the parser's types and `begin`. Page: the
--     metrics, the pen, the rows, the table of missing glyphs and `emit_literal`. Faces: the faces
--     of a row, `draw_glyph` and `paint_bg`. Run: `emit_run`. Events: `onText`, `onLink`,
--     `onDivider`, `onLineEnd`, `onImage`, `onPartial`, `onAnchor`. Fields: `onField`. Tables:
--     `onTableBegin` and `onTableRow`. Flush: `table_flush` and `onTableEnd`. Ink: brightness.
--     Window, Missing, Literal, Wrapping, Words, Placed, Prose, Layout, Ready, Texts, Steps,
--     Inputs and Session hold the theorems on where the renderer draws, from a glyph to any run
--     of events; StartsInside says which calls begin in the page's area, and what of them ends
--     there. Replay carries the calls out on the driver of the display; Compose is `compose_page`
--     (lib/MicronRender/src/ComposePage.h), over any parser. Buffer and Collect: the table
--     buffer. Lines: the lines of a cell. Links, Heading, Divider, Rounds, Endless: the boxes of
--     links, the faces of headings, the bytes of dividers, the loops of a run, and the bar of a
--     field.
--   App: the application. Platform: the files, sealed files and identities that it is given, and
--     their laws. Vault: the attempts, the sealed identity and `bringup_identity`. Diag:
--     `build_diag_body`. Device: the running state, `send_lxmf`, `announce`, the delivery callback,
--     `thicket_work` and `thicket_task`. Silicon: `report_silicon_and_approtect`. Autosend:
--     `bringup_autosend`. LowRam: `lowram_check`, `probe_low_ram`, `pool_soak_sample`. Setup: the
--     self-test of the store, `bringup_lxmf` and `setup`. Peers says whom replies go to. Attempts, Reboots, Body, Sending, Numbered,
--     Replies, Announces, Bringup, Blinks, Figures and Verdict hold the theorems.
--   Desktop: Resolve is `resolve`, from a link's target to a file; Browser the class of that name.
--     LiveFetch is desktop/LiveFetch.cpp. Held, Navigate and Fetched: the theorems on the three.
--   FirstLight: Pins is the bus that `display_bringup.cpp` makes of pins; Pattern its picture, its
--     `setup` and its `loop`.
--   The files called Tests, with App.Samples, Render.Samples, Render.PageTests and
--     Render.ComposeTests, hold concrete instances.
--
-- Conventions. A byte array is a function from offsets to numbers (Base.Memory), and IsStored says
-- that its entries are bytes. Numbers are natural numbers; every cast and every wrap of a counter is
-- written out as a remainder. `none` is a null pointer, a false return or, for a loop on fuel, a loop
-- that has not ended; the theorems on such loops say how much fuel is enough. The walk of
-- `write_lines` takes the number of bytes as fuel, of which every round uses 52, and `find` takes one
-- more round than the table has entries. The loops of the page renderer are by the rounds left, a
-- round for every byte or column that is left, and 67 for the cells of a divider; none of them runs
-- out, since every round takes a byte, a column or a cell. The 32 lines of a cell are the code's.
-- `setup` of the bring-up sketch is on fuel as its drawing calls are. Each read of a clock is a given
-- value, `OS::time()` in thousandths of a second. `float`, `lroundf` and the product with ten are
-- parameters. The application's state keeps, for what it asks of router and transport, a log.
--
-- Not modelled. The glyph tables of CozetteFont.h, CozetteBig.h and TamzenFont.h are generated, and
-- a parameter here (Fonts); EmojiGlyphs.h is written by hand and is modelled. Writing the panel to
-- a file is output only. lib/LoRaInterface, lib/EncryptedStore and lib/Password are copies of other
-- projects' code. The parser of pages is another library: its types have here the fields that the
-- renderer reads, and its events are what PageEvent lists. What is printed on the
-- serial port is left out, but for the line on the debug port that parsers read and the body of a
-- message. Of the application, the bring-up of storage, radio and Reticulum is calls
-- of other libraries, and only its results are in the model; the probe of the path index and the
-- reports of free memory are not. Of the browser, the window, the picture files and the scripted
-- runs are not. tools/uihost draws fixed screens, and test_interop is glue around other projects.
pub mod App
pub mod Base
pub mod Desktop
pub mod FirstLight
pub mod Keypad
pub mod Lcd
pub mod Render
