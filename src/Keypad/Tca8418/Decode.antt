-- ===== src/Keypad/Tca8418/Decode.antt =====
-- What one FIFO byte means.
use thicket_firmware.Base.{ℕ, ◌+◌, ◌*◌, ◌<◌, ◌≡◌, ◌↔◌, arith, some, if◌then◌else◌}
use thicket_firmware.Base.Bits.{bit_and_7f, bit_and_80}
use thicket_firmware.Keypad.Tca8418.{KeyEvent, decode}
use thicket_firmware.Keypad.Tca8418.Reg.{rows_max, cols_max}

-- The byte that the datasheet's table gives for a press or release in the matrix.
abbrev pub encode : KeyEvent → ℕ
encode ev = (if ev.pressed then 128 else 0) + (ev.row * cols_max + ev.col + 1)

abbrev pub InMatrix : KeyEvent → Type 0
InMatrix ev = (ev.row < rows_max) × (ev.col < cols_max)

-- A FIFO byte decodes to an event exactly when the event lies in the 8 by 10 matrix and the byte
-- is its code: the key number counted along the columns from 1, with bit 7 set for a press.
pub decode-encode_iff :
    (raw : ℕ) (ev : KeyEvent)
    → raw < 256
    → (decode raw ≡ some ev) ↔ (InMatrix ev × (raw ≡ encode ev))
unfolding decode
decode-encode_iff raw ev h = ground (arith, bit_and_7f raw h, bit_and_80 raw h)

-- Whatever the bus returned, a decoded event lies in the matrix.
pub decode-InMatrix : (raw : ℕ) (ev : KeyEvent) → decode raw ≡ some ev → InMatrix ev
unfolding decode
decode-InMatrix raw ev h = ground arith
