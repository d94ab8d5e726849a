-- ===== src/Keypad/Tca8418/Tests.antt =====
-- The scanner's theorems at concrete inputs.
use thicket_firmware.Base.{
  ℕ, ◌+◌, ◌-◌, ◌*◌, ◌^◌, ◌≡◌, ◌↔◌, refl, arith, true, false, some, List, [], ◌∷◌, ◌++◌, take, ◌==◌,
  if◌then◌else◌,
}
use thicket_firmware.Keypad.Tca8418.{
  KeyEvent, decode, begin, poll, Driver, row_mask, col_mask1, col_mask2,
}
use thicket_firmware.Keypad.Tca8418.Reg
use thicket_firmware.Keypad.Tca8418.FakeBus.{FakeBus}
use thicket_firmware.Keypad.Tca8418.Decode.{InMatrix, encode, decode-encode_iff}
use thicket_firmware.Keypad.Tca8418.Poll.{fake, before_empty, matrix_events, poll-FakeBus}
use thicket_firmware.Keypad.Tca8418.Config.{begin-FakeBus, config, write_backs}

abbrev key_32 : KeyEvent
key_32 = record { row = 3; col = 1; pressed = true }

decode-encode_iff_example : (decode 0xA0 ≡ some key_32) ↔ (InMatrix key_32 × (0xA0 ≡ encode key_32))
decode-encode_iff_example = decode-encode_iff 0xA0 key_32 (omega arith)

-- Two key events and the overflow interrupt are waiting.
abbrev two_keys : ℕ → List ℕ
two_keys reg =
    if reg == 2
    then 0x09 ∷ []
    else if reg == 3
    then 0x02 ∷ []
    else if reg == 4
    then 0xA0 ∷ 0x20 ∷ []
    else []

abbrev waiting : Driver FakeBus
waiting = record {
  bus = record { reads = two_keys; writes = []; fail_all = false };
  overflowed = false;
}

poll-FakeBus_example :
    ((poll fake false 4 waiting).0
      ≡ take 4 (matrix_events (before_empty (take 2 (0xA0 ∷ 0x20 ∷ [])))))
    × ((poll fake false 4 waiting).1.bus.writes ≡ [] ++ (Reg.int_stat, 0x09) ∷ [])
poll-FakeBus_example =
    poll-FakeBus 4 0x09 0x02 waiting refl refl refl refl (omega arith) (omega arith) (omega arith)

begin-FakeBus_example :
    ((begin fake 4 9 waiting.bus).0 ≡ true)
    × ((begin fake 4 9 waiting.bus).1.writes ≡ [] ++ config 4 9 ++ write_backs 0x09)
    × (row_mask 4 ≡ 2 ^ 4 - 1)
    × (col_mask1 9 + 256 * col_mask2 9 ≡ 2 ^ 9 - 1)
begin-FakeBus_example =
    begin-FakeBus 4 9 0x09 waiting.bus (omega arith, omega arith, omega arith, omega arith) refl
      refl
