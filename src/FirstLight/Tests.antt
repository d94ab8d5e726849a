-- ===== src/FirstLight/Tests.antt =====
-- The theorems on the first light at concrete inputs.
use thicket_firmware.Base.{◌+◌, ◌≤◌, ◌<◌, ◌≡◌, ◌⊎◌, arith, true, false, [], ◌∷◌, u32}
use thicket_firmware.Lcd.SharpLcd.{SharpLcd, init, fill_white, toggle_vcom}
use thicket_firmware.Lcd.VirtualPanel.{power_up, drive}
use thicket_firmware.Lcd.Session.{IsLive, fresh-IsLive}
use thicket_firmware.Render.Samples.{noise}
use thicket_firmware.FirstLight.Pins.{write_pins, sample, bytes_of, bytes_of-write_pins}
use thicket_firmware.FirstLight.Pattern.{loop, loop-IsLive}

bytes_of-write_pins_example :
    let w =
      sample
        (write_pins (0x80 ∷ 0xA5 ∷ 0 ∷ []))
        (record { clock = false; line = true; taken = [] }) in
    (bytes_of w.taken ≡ 0x80 ∷ 0xA5 ∷ 0 ∷ []) × (w.clock ≡ false)
bytes_of-write_pins_example = bytes_of-write_pins (0x80 ∷ 0xA5 ∷ 0 ∷ []) true (omega arith)

abbrev fresh : SharpLcd
fresh = fill_white (init noise)

IsLive-at_first : IsLive fresh power_up
IsLive-at_first = fresh-IsLive noise (λ i. omega arith)

loop-IsLive_example :
    let now = u32 (4294967000 + 1000) in
    let r = loop now 4294967000 fresh in
    (((1000 ≤ 1000) × (r ≡ (now, (toggle_vcom fresh).0, (toggle_vcom fresh).1)))
      ⊎ ((1000 < 1000) × (r ≡ (4294967000, fresh, []))))
    × IsLive r.1 (drive r.2 power_up)
    × (r.1.fb ≡ fresh.fb)
loop-IsLive_example =
    loop-IsLive 4294967000 1000 fresh power_up (omega arith) (omega arith) IsLive-at_first
