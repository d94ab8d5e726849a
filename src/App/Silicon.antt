-- ===== src/App/Silicon.antt =====
-- src/main.cpp: `report_silicon_and_approtect`, on the words that the two registers give. The
-- lines that it prints are its notes, but for the one whose format is fixed.
use thicket_firmware.Base.{
  ℕ, Bool, not, ◌&&◌, ◌||◌, List, [], ◌∷◌, ◌++◌, bit_and, leb, ◌==◌, if◌then◌else◌, codes, u8,
  ◌>>>◌,
}
use thicket_firmware.App.Platform.{Bytes}
use thicket_firmware.App.Diag.{snprintf}

pub data Meaning : Type 0 where
  erased disabled enabled unrecognised : Meaning

pub data Note : Type 0 where
  locked port_open glitched : Note

abbrev pub erased_word : ℕ
erased_word = 0xFFFFFFFF

abbrev pub variant_byte : ℕ → ℕ → ℕ
variant_byte variant k = bit_and (variant >>> k) 0xFF

-- A text of the four bytes, which ends at a null byte.
unfoldable pub until_null : List ℕ → Bytes
until_null [] = []
until_null (b ∷ bs) = let rest = until_null bs in if b == 0 then [] else b ∷ rest

unfoldable pub variant_text : ℕ → Bytes
unfolding until_null
variant_text variant = until_null (
    variant_byte variant 24
    ∷ variant_byte variant 16
    ∷ variant_byte variant 8
    ∷ variant_byte variant 0
    ∷ [])

-- The bytes are compared as `char`, which is unsigned on this part.
unfoldable pub hw_approtect_part : ℕ → Bool
hw_approtect_part variant = leb b'F' (variant_byte variant 8) && leb (variant_byte variant 8) b'Z'

unfoldable pub meaning : ℕ → Meaning
meaning approt =
    if approt == erased_word
    then erased
    else if u8 (bit_and approt 0xFF) == 0x5A
    then disabled
    else if u8 (bit_and approt 0xFF) == 0x00
    then enabled
    else unrecognised

unfoldable pub approtect_notes : ℕ → ℕ → List Note
approtect_notes variant approt =
    if hw_approtect_part variant
    then if approt == erased_word || not (bit_and approt 0xFF == 0x5A) then locked ∷ [] else []
    else if approt == erased_word || bit_and approt 0xFF == 0x5A
    then port_open ∷ []
    else glitched ∷ []

unfoldable pub debug_port_protected : ℕ → ℕ → Bool
debug_port_protected variant approt =
    hw_approtect_part variant && not (u8 (bit_and approt 0xFF) == 0x5A)

unfoldable pub security_text : Bytes → Bool → Bytes
security_text variant safe =
    codes "THICKET-SEC v1 variant="
    ++ (variant ++ (codes " approtect=" ++ (if safe then codes "protected" else codes "OPEN")))

-- The line that parsers depend on, as it is in its buffer of 80.
unfoldable pub security_line : ℕ → ℕ → Bytes
unfolding snprintf security_text
security_line variant approt =
    (snprintf 80 (security_text (variant_text variant) (debug_port_protected variant approt))).1
