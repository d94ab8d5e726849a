-- ===== src/App/Autosend.antt =====
-- src/main.cpp: `bringup_autosend`, the check of the destination that a build carries. `assign_hex`
-- is RNS::Bytes::assignHex.
use thicket_firmware.Base.{
  ℕ, Bool, true, false, not, ◌&&◌, ◌||◌, [], ◌∷◌, length, leb, ◌==◌, if◌then◌else◌,
}
use thicket_firmware.App.Platform.{Bytes}
use thicket_firmware.App.Device.{Setting, Device, hash_size}

unfoldable pub is_hex : ℕ → Bool
is_hex ch =
    (leb b'0' ch && leb ch b'9') || (leb b'a' ch && leb ch b'f') || (leb b'A' ch && leb ch b'F')

-- The loop over the characters; false at the first that is no digit.
unfoldable pub all_hex : Bytes → Bool
all_hex [] = true
all_hex (ch ∷ rest) = if is_hex ch then all_hex rest else false

unfoldable pub bringup_autosend : (c : Setting) → (Bytes → Bytes) → Bytes → ℕ → Device c → Device c
bringup_autosend c assign_hex hex now s =
    if not (length hex == 32)
    then s
    else if not (all_hex hex)
    then s
    else (let s' = record s { autosend_dest = assign_hex hex } in
        if not (length (assign_hex hex) == hash_size)
        then s'
        else record s' { autosend_ok = true; last_autosend = now })
