-- ===== src/Lcd/Draw.antt =====
-- Drawing as sequences of pixel writes. Whatever holds of one write holds of every drawing call.
use thicket_firmware.Base.{ℕ, ◌∙◌, sym, Bool}
use thicket_firmware.Lcd.SharpLcd.{SharpLcd, set_pixel}
use thicket_firmware.Lcd.VirtualPanel.{VirtualPanel}
use thicket_firmware.Lcd.Pixels.{IsStored, set_pixel-IsStored, set_pixel-clean, vcom-set_pixel}
use thicket_firmware.Lcd.Sync.{InSync}

-- `Draws s t`: some pixel writes lead from `s` to `t`.
pub data Draws (s : SharpLcd) : SharpLcd → Type 0 where
  still : Draws s s
  ink : {t : SharpLcd} (x y : ℕ) (black : Bool) → Draws s t → Draws s (set_pixel x y black t)

pub Draws-trans : {s t u : SharpLcd} → Draws s t → Draws t u → Draws s u
Draws-trans d still = d
Draws-trans d (ink x y black e) = ink x y black (Draws-trans d e)

pub Draws-IsStored : {s t : SharpLcd} → IsStored s → Draws s t → IsStored t
Draws-IsStored ok still = ok
Draws-IsStored ok (ink {t = t} x y black d) = set_pixel-IsStored x y black t (Draws-IsStored ok d)

set_pixel-InSync :
    (x y : ℕ) (black : Bool) {s : SharpLcd} {p : VirtualPanel}
    → IsStored s
    → InSync s p
    → InSync (set_pixel x y black s) p
set_pixel-InSync x y black {s} {p} ok sync = record {
  clean = λ r j hr hj e.
      let was = set_pixel-clean x y r j black s ok hj e in sync.clean r j hr hj was.0 ∙ sym was.1;
  inversion = sync.inversion ∙ sym (vcom-set_pixel x y black s);
}

-- Drawing into the framebuffer marks every line that it changes, so that the panel still shows
-- every clean line.
pub Draws-InSync :
    {s t : SharpLcd} {p : VirtualPanel} → IsStored s → InSync s p → Draws s t → InSync t p
Draws-InSync ok sync still = sync
Draws-InSync ok sync (ink x y black d) =
    set_pixel-InSync x y black (Draws-IsStored ok d) (Draws-InSync ok sync d)
