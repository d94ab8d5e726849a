-- ===== src/Lcd/Session.antt =====
-- The driver's calls in any order, with the panel on the bus.
use thicket_firmware.Base.{
  ℕ, ◌+◌, ◌*◌, ◌/◌, ◌<◌, ◌≡◌, refl, arith, Bool, true, false, [], ◌∷◌, not, bit_or,
}
use thicket_firmware.Base.Memory.{Memory, AllBytes, memset}
use thicket_firmware.Lcd.SharpLcd.{
  SharpLcd, init, fill_white, clear, flush, toggle_vcom, is_dirty, get_pixel, line_bytes, select,
  write, vcom_bit, m2_clear,
}
use thicket_firmware.Lcd.VirtualPanel.{
  VirtualPanel, power_up, drive, step, select_panel, receive, push, apply_transaction, apply_bytes,
  apply_mode, set_vcom, pixel,
}
use thicket_firmware.Lcd.Dirty.{is_dirty-filled}
use thicket_firmware.Lcd.Pixels.{IsStored}
use thicket_firmware.Lcd.Draw.{Draws, Draws-IsStored, Draws-InSync}
use thicket_firmware.Lcd.Sync.{IsShown, InSync, flush_shows}

-- One call of the driver, with what the panel makes of the bytes it sends.
pub data Step (s : SharpLcd) (p : VirtualPanel) : SharpLcd → VirtualPanel → Type 0 where
  draw : {t : SharpLcd} → Draws s t → Step s p t p
  whiten : Step s p (fill_white s) p
  flushed : Step s p (flush s).1 (drive (flush s).2 p)
  toggled : Step s p (toggle_vcom s).0 (drive (toggle_vcom s).1 p)
  cleared : Step s p (clear s).0 (drive (clear s).1 p)

pub data Reach (s : SharpLcd) (p : VirtualPanel) : SharpLcd → VirtualPanel → Type 0 where
  here : Reach s p s p
  next : {t u : SharpLcd} {q r : VirtualPanel} → Reach s p t q → Step t q u r → Reach s p u r

pub record IsLive (s : SharpLcd) (p : VirtualPanel) : Type 0 where
  pub stored : IsStored s
  pub sync : InSync s p

flushed-IsStored : (s : SharpLcd) → IsStored s → IsStored (flush s).1
unfolding flush
flushed-IsStored s ok = record {
  fb = λ i. ground (arith, ok.fb i);
  dirty = λ i. ground (arith, ok.dirty i);
}

whitened :
    (img fb : Memory) (r j : ℕ)
    → r < 240
    → j < 50
    → memset img 0xFF 12000 (r * line_bytes + j) ≡ memset fb 0xFF 12000 (r * line_bytes + j)
whitened img fb r j hr hj = ground arith

-- What a mode byte alone makes the panel do.
toggled_panel :
    (v : Bool) (p : VirtualPanel)
    → let p' = drive (select true ∷ write (vcom_bit v ∷ 0x00 ∷ []) ∷ select false ∷ []) p in
      (p'.vcom ≡ v) × (p'.img ≡ p.img) × (p'.overflowed ≡ p.overflowed)
unfolding drive step select_panel receive push apply_transaction apply_bytes apply_mode set_vcom
toggled_panel true p = ground arith
toggled_panel false p = ground arith

cleared_panel :
    (v : Bool) (p : VirtualPanel)
    → let p' =
        drive
          (select true ∷ write (bit_or m2_clear (vcom_bit v) ∷ 0x00 ∷ []) ∷ select false ∷ [])
          p in
      (p'.vcom ≡ v) × (p'.img ≡ memset p.img 0xFF 12000)
unfolding drive step select_panel receive push apply_transaction apply_bytes apply_mode set_vcom
cleared_panel true p = ground arith
cleared_panel false p = ground arith

-- A toggle reaches the panel and leaves its image alone.
pub toggle_vcom-IsLive :
    {s : SharpLcd} {p : VirtualPanel}
    → IsLive s p
    → IsLive (toggle_vcom s).0 (drive (toggle_vcom s).1 p)
unfolding toggle_vcom is_dirty
toggle_vcom-IsLive {s} {p} ok =
    let panel = toggled_panel (not s.vcom) p in
    record {
      stored = record { fb = ok.stored.fb; dirty = ok.stored.dirty };
      sync = record {
        clean = λ r j hr hj e. rw panel.1 (ok.sync.clean r j hr hj e);
        inversion = panel.0;
      };
    }

-- A clear whitens panel and framebuffer alike.
pub clear-IsLive :
    {s : SharpLcd} {p : VirtualPanel}
    → IsLive s p
    → IsLive (clear s).0 (drive (clear s).1 p) × IsShown (clear s).0 (drive (clear s).1 p)
unfolding clear
clear-IsLive {s} {p} ok =
    let panel = cleared_panel s.vcom p in
    let white = λ (r j : ℕ) (hr : r < 240) (hj : j < 50). whitened p.img s.fb r j hr hj in
    (
      record {
        stored = record {
          fb = λ i. ground (arith, ok.stored.fb i);
          dirty = λ i. ground (arith, ok.stored.dirty i);
        };
        sync = record { clean = λ r j hr hj _. rw panel.1 (white r j hr hj); inversion = panel.0 };
      },
      record { row = λ r j hr hj. rw panel.1 (white r j hr hj) },
    )

pub fill_white-IsLive :
    {s : SharpLcd} {p : VirtualPanel} → IsStored s → p.vcom ≡ s.vcom → IsLive (fill_white s) p
unfolding fill_white
fill_white-IsLive {s} ok e = record {
  stored = record { fb = λ i. ground (arith, ok.fb i); dirty = λ i. ground (arith, ok.dirty i) };
  sync = record {
    clean = λ r j hr hj e. cc (is_dirty-filled r (record s { fb = memset s.fb 0xFF 12000 }) hr);
    inversion = e;
  };
}

-- Every call of the driver keeps driver and panel in step.
pub Step-IsLive : {s t : SharpLcd} {p q : VirtualPanel} → IsLive s p → Step s p t q → IsLive t q
Step-IsLive ok (draw d) = record {
  stored = Draws-IsStored ok.stored d;
  sync = Draws-InSync ok.stored ok.sync d;
}
Step-IsLive ok whiten = fill_white-IsLive ok.stored ok.sync.inversion
Step-IsLive {s} {p = p} ok flushed = record {
  stored = flushed-IsStored s ok.stored;
  sync = (flush_shows s p ok.sync).1;
}
Step-IsLive ok toggled = toggle_vcom-IsLive ok
Step-IsLive ok cleared = (clear-IsLive ok).0

-- From driver and panel in step, whatever calls are made, in whatever order, they stay in step:
-- the framebuffer and the dirty set hold bytes, every clean line of the panel is what the
-- framebuffer holds, and both sides agree on the frame inversion.
pub Reach-IsLive :
    {s : SharpLcd} {p : VirtualPanel} {t : SharpLcd} {q : VirtualPanel}
    → IsLive s p
    → Reach s p t q
    → IsLive t q
Reach-IsLive ok here = ok
Reach-IsLive ok (next r st) = Step-IsLive (Reach-IsLive ok r) st

-- A driver that was just made and filled white is in step with a panel that was just powered up.
pub fresh-IsLive :
    (framebuffer : Memory) → AllBytes framebuffer → IsLive (fill_white (init framebuffer)) power_up
unfolding init power_up
fresh-IsLive framebuffer bytes =
    fill_white-IsLive (record { fb = bytes; dirty = λ i. omega arith }) refl

-- An image that is the framebuffer shows its pixels.
pub pixel-get_pixel :
    (x y : ℕ) {s : SharpLcd} {p : VirtualPanel} → IsShown s p → pixel x y p ≡ get_pixel x y s
unfolding pixel get_pixel
pixel-get_pixel x y shown = ground (arith, shown.row y (x / 8))

-- From power-up, with a framebuffer of bytes that is filled white first, after any calls of the
-- driver in any order a further flush makes every pixel of the panel the pixel that the driver
-- holds.
pub flush_shows_pixels :
    (framebuffer : Memory) (x y : ℕ) {s : SharpLcd} {p : VirtualPanel}
    → AllBytes framebuffer
    → Reach (fill_white (init framebuffer)) power_up s p
    → pixel x y (drive (flush s).2 p) ≡ get_pixel x y (flush s).1
flush_shows_pixels framebuffer x y {s} {p} bytes r =
    let live = Reach-IsLive (fresh-IsLive framebuffer bytes) r in
    pixel-get_pixel x y (flush_shows s p live.sync).0
