-- ===== src/Lcd/Sync.antt =====
-- Driver and panel together: what stays in step, and what a flush shows.
use thicket_firmware.Base.{
  ℕ, ◌+◌, ◌*◌, ◌<◌, ◌≡◌, ◌≢◌, refl, arith, Bool, true, false, List, [], ◌∷◌, ◌++◌, length,
  length-append, ◌==◌, Bool-cases, inl, inr, u32, ◌∙◌, ap,
}
use thicket_firmware.Base.Memory.{memset}
use thicket_firmware.Lcd.SharpLcd.{
  SharpLcd, BusOp, select, write, is_dirty, dirty_lines, send_lines, flush, line_bytes, update_mode,
}
use thicket_firmware.Lcd.VirtualPanel.{
  VirtualPanel, drive, step, receive, push, select_panel, apply_transaction, apply_bytes,
  apply_mode, set_vcom, write_lines,
}
use thicket_firmware.Lcd.Dirty.{is_dirty-cleared, dirty_from-zero}
use thicket_firmware.Lcd.Wire.{
  stream, length-stream, drive-append, drive-send_lines, painted, write_lines-stream, IsPainted,
  painted-IsPainted, receive_fits,
}

-- The panel's image is the framebuffer, byte for byte.
pub record IsShown (s : SharpLcd) (p : VirtualPanel) : Type 0 where
  pub row : (r j : ℕ) → r < 240 → j < 50 → p.img (r * line_bytes + j) ≡ s.fb (r * line_bytes + j)

-- What holds between two calls of the driver: a clean line is shown, and both agree on the
-- frame inversion.
pub record InSync (s : SharpLcd) (p : VirtualPanel) : Type 0 where
  pub clean :
      (r j : ℕ)
      → r < 240
      → j < 50
      → is_dirty r s ≡ false
      → p.img (r * line_bytes + j) ≡ s.fb (r * line_bytes + j)
  pub inversion : p.vcom ≡ s.vcom

-- The panel when the transaction of a flush is closed.
abbrev sent : SharpLcd → VirtualPanel → VirtualPanel
sent s p = record p { selected = false; tx = update_mode s.vcom ∷ (stream 240 0 s ++ 0 ∷ []) }

apply_update :
    (v : Bool) (rest : List ℕ) (p : VirtualPanel)
    → p.vcom ≡ v
    → apply_bytes (update_mode v ∷ rest) p ≡ write_lines (length rest) rest p
unfolding apply_bytes apply_mode set_vcom
apply_update true rest p e = ground arith
apply_update false rest p e = ground arith

close_update :
    (s : SharpLcd) (p : VirtualPanel)
    → p.vcom ≡ s.vcom
    → apply_transaction (sent s p) ≡ painted 240 0 s (sent s p)
unfolding apply_transaction
close_update s p e =
    apply_update s.vcom (stream 240 0 s ++ 0 ∷ []) (sent s p) e
    ∙ write_lines-stream (length (stream 240 0 s ++ 0 ∷ [])) 240 0 s (sent s p)
        (omega (arith, length-append (stream 240 0 s) (0 ∷ [])))

-- The panel while a flush is under way, with these bytes received.
abbrev during : VirtualPanel → List ℕ → VirtualPanel
during p bytes = record p { selected = true; tx = bytes }

open_update :
    (mode : ℕ) (ops : List BusOp) (p : VirtualPanel)
    → drive (select true ∷ write (mode ∷ []) ∷ ops) p ≡ drive ops (during p (mode ∷ []))
unfolding drive step select_panel receive push
open_update mode ops p = refl

finish_update :
    (bytes : List ℕ) (p : VirtualPanel)
    → length bytes < 12482
    → drive (write (0 ∷ []) ∷ select false ∷ []) (during p bytes)
      ≡ record (apply_transaction (record p { selected = false; tx = bytes ++ 0 ∷ [] })) { tx = [] }
unfolding drive step select_panel
finish_update bytes p h = rw (receive_fits (0 ∷ []) (during p bytes) refl (omega arith))

drive-flush :
    (s : SharpLcd) (p : VirtualPanel)
    → p.vcom ≡ s.vcom
    → dirty_lines s ≢ 0
    → drive (flush s).2 p ≡ record (painted 240 0 s (sent s p)) { tx = [] }
drive-flush s p e some_dirty =
    let mode = update_mode s.vcom in
    let tail = write (0 ∷ []) ∷ select false ∷ [] in
    let sends = send_lines 240 0 s in
    let room = length-stream 240 0 s in
    let opened : drive (flush s).2 p ≡ drive (select true ∷ write (mode ∷ []) ∷ (sends ++ tail)) p =
      unfold flush in ground arith in
    opened
    ∙ open_update mode (sends ++ tail) p
    ∙ drive-append sends tail (during p (mode ∷ []))
    ∙ ap (drive tail) (drive-send_lines 240 0 s (during p (mode ∷ [])) refl (omega arith))
    ∙ finish_update (mode ∷ stream 240 0 s) p (omega arith)
    ∙ ap (λ (q : VirtualPanel). record q { tx = [] }) (close_update s p e)

none_is_dirty :
    (s : SharpLcd) → (dirty_lines s == 0) ≡ true → (r : ℕ) → r < 240 → is_dirty r s ≡ false
unfolding dirty_lines
none_is_dirty s e r h = dirty_from-zero 240 0 r s (ground arith) (omega arith) (omega arith)

flushed_rows :
    (s : SharpLcd) {p p' : VirtualPanel}
    → InSync s p
    → IsPainted 240 0 s p p'
    → (r j : ℕ) → r < 240
    → j < 50
    → p'.img (r * line_bytes + j) ≡ s.fb (r * line_bytes + j)
flushed_rows s sync result r j hr hj = elim (Bool-cases (is_dirty r s)) [
  | inl changed ↦ ground (arith, result.rows r j hj)
  | inr clean ↦ ground (arith, result.rows r j hj, sync.clean r j hr hj clean)
]

-- From driver and panel in step, a flush brings the panel up to date: afterwards the panel's
-- image is the driver's framebuffer on every line, no line is dirty, and panel and driver are in
-- step again. The panel took in as many lines as the flush reports, counted at 32 bits, which is
-- the number of dirty lines; nothing overflowed or cleared it, the count of inversions did not
-- change, and the framebuffer is as it was.
pub flush_shows :
    (s : SharpLcd) (p : VirtualPanel)
    → InSync s p
    → let (n, s', ops) = flush s in
      IsShown s' (drive ops p)
      × InSync s' (drive ops p)
      × ((r : ℕ) → r < 240 → is_dirty r s' ≡ false)
      × (s'.fb ≡ s.fb)
      × (n ≡ dirty_lines s)
      × (u32 (drive ops p).lines_written ≡ u32 (p.lines_written + n))
      × ((drive ops p).overflowed ≡ p.overflowed)
      × ((drive ops p).clears ≡ p.clears)
      × ((drive ops p).vcom_toggles ≡ p.vcom_toggles)
flush_shows s p sync = elim (Bool-cases (dirty_lines s == 0)) [
  | inl none_dirty ↦
      let idle : flush s ≡ (0, s, []) = unfold flush in ground arith in
      let still : drive [] p ≡ p = unfold drive in refl in
      let clean = λ (r : ℕ) (h : r < 240). none_is_dirty s none_dirty r h in
      rw (idle, still)
        (
          record { row = λ r j hr hj. sync.clean r j hr hj (clean r hr) },
          sync,
          clean,
          refl,
          ground arith,
          ground arith,
          refl,
          refl,
          refl,
        )
  | inr some_dirty ↦
      let sends : (flush s).0 ≡ dirty_lines s = unfold flush in ground arith in
      let cleaned : (flush s).1 ≡ record s { dirty = memset s.dirty 0 30 } =
        unfold flush in ground arith in
      let result = painted-IsPainted 240 0 s (sent s p) (omega arith) in
      let rows =
        flushed_rows s (record { clean = sync.clean; inversion = sync.inversion }) result in
      rw (drive-flush s p sync.inversion (ground arith), cleaned, sends)
        (
          record { row = rows },
          record {
            clean = λ r j hr hj _. rows r j hr hj;
            inversion = result.rest.1 ∙ sync.inversion;
          },
          λ r hr. is_dirty-cleared r s hr,
          refl,
          refl,
          unfold dirty_lines in result.lines,
          result.rest.5,
          result.rest.3,
          result.rest.4,
        )
]
