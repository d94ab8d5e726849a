-- ===== src/App/Verdict.antt =====
-- What the boot says of the debug port, and which destinations a timed send takes.
use thicket_firmware.Base.{
  ℕ, ◌≤◌, ◌≡◌, ◌↔◌, ◌⊎◌, refl, ap, ◌∙◌, arith, Bool, true, false, List, [], ◌∷◌, ◌++◌, length,
  length-append, take_all, bit_and, ◌==◌, Bool-cases, inl, inr, codes, u8, All,
}
use thicket_firmware.Base.Bits.{bit_and-le}
use thicket_firmware.App.Platform.{Bytes}
use thicket_firmware.App.Diag.{snprintf}
use thicket_firmware.App.Device.{Setting, Device}
use thicket_firmware.App.Silicon.{
  locked, port_open, glitched, erased_word, variant_byte, until_null, variant_text, approtect_notes,
  debug_port_protected, security_text, security_line,
}
use thicket_firmware.App.Autosend.{is_hex, all_hex, bringup_autosend}

length-until_null : (bs : List ℕ) → length (until_null bs) ≤ length bs
unfolding until_null
length-until_null [] = omega arith
length-until_null (b ∷ bs) = ground (arith, length-until_null bs)

length-security_text :
    (variant : Bytes) (safe : Bool) → length variant ≤ 4 → length (security_text variant safe) ≤ 60
unfolding security_text
length-security_text variant true h = omega (arith, length-append {0})
length-security_text variant false h = omega (arith, length-append {0})

length-variant_text : (variant : ℕ) → length (variant_text variant) ≤ 4
unfolding variant_text
length-variant_text variant = length-until_null (
    variant_byte variant 24
    ∷ variant_byte variant 16
    ∷ variant_byte variant 8
    ∷ variant_byte variant 0
    ∷ [])

low_byte : (approt : ℕ) → u8 (bit_and approt 0xFF) ≡ bit_and approt 0xFF
low_byte approt = omega (arith, bit_and-le approt 0xFF)

erased-low_byte : (approt : ℕ) → approt ≡ erased_word → (bit_and approt 0xFF == 0x5A) ≡ false
erased-low_byte approt e = rw e refl

protected-notes :
    (variant approt : ℕ)
    → debug_port_protected variant approt ≡ true
    → approtect_notes variant approt ≡ locked ∷ []
unfolding approtect_notes debug_port_protected
protected-notes variant approt = rw (low_byte approt) (ground arith)

open-notes :
    (variant approt : ℕ)
    → debug_port_protected variant approt ≡ false
    → (approtect_notes variant approt ≡ port_open ∷ [])
      ⊎ (approtect_notes variant approt ≡ glitched ∷ [])
      ⊎ (approtect_notes variant approt ≡ [])
unfolding approtect_notes debug_port_protected
open-notes variant approt = rw (low_byte approt) (ground (arith, erased-low_byte approt))

security_line-text :
    (variant approt : ℕ)
    → security_line variant approt
      ≡ security_text (variant_text variant) (debug_port_protected variant approt)
unfolding security_line snprintf
security_line-text variant approt =
    take_all 79 (security_text (variant_text variant) (debug_port_protected variant approt)) (
      omega (
        arith,
        length-security_text (variant_text variant) (debug_port_protected variant approt)
            (length-variant_text variant),
      ))

-- The line that parsers read is whole in its buffer, and it says `protected` for the chips whose
-- note is that the port is locked, and `OPEN` for all others: those whose note is that it is open
-- or can be opened by the glitch, and those that have no note.
pub security_line-notes :
    (variant approt : ℕ)
    → let said = λ (word : Bytes).
      security_line variant approt
      ≡ codes "THICKET-SEC v1 variant="
        ++ (variant_text variant ++ (codes " approtect=" ++ word)) in
      ((approtect_notes variant approt ≡ locked ∷ []) × said (codes "protected"))
      ⊎ (((approtect_notes variant approt ≡ port_open ∷ [])
            ⊎ (approtect_notes variant approt ≡ glitched ∷ [])
            ⊎ (approtect_notes variant approt ≡ []))
          × said (codes "OPEN"))
unfolding security_text
security_line-notes variant approt =
    let whole = security_line-text variant approt in
    elim (Bool-cases (debug_port_protected variant approt)) [
      | inl safe ↦ inl (
        protected-notes variant approt safe,
        whole ∙ ap (security_text (variant_text variant)) safe,
      )
      | inr unsafe ↦ inr (
        open-notes variant approt unsafe,
        whole ∙ ap (security_text (variant_text variant)) unsafe,
      )
    ]

-- A digit of a number written in hexadecimal.
abbrev pub IsHex : ℕ → Type 0
IsHex ch = ((b'0' ≤ ch) × (ch ≤ b'9')) ⊎ ((b'a' ≤ ch) × (ch ≤ b'f')) ⊎ ((b'A' ≤ ch) × (ch ≤ b'F'))

is_hex_iff : (ch : ℕ) → (is_hex ch ≡ true) ↔ IsHex ch
unfolding is_hex
is_hex_iff ch = ground arith

all_hex_iff : (hex : Bytes) → (all_hex hex ≡ true) ↔ All IsHex hex
unfolding all_hex
all_hex_iff [] = (λ _. tt, λ _. refl)
all_hex_iff (ch ∷ rest) = elim (Bool-cases (is_hex ch)) [
  | inl digit ↦
      rw digit
        (λ h. ((is_hex_iff ch).0 digit, (all_hex_iff rest).0 h), λ h. (all_hex_iff rest).1 h.1)
  | inr other ↦ rw other (λ h. cc, λ h. cc (other, (is_hex_iff ch).1 h.0))
]

-- Where no timed send is armed before: it is armed exactly if the destination of the build has 32
-- characters, all of them hexadecimal digits, and decodes to 16 bytes; it is then sent to these
-- bytes, with the interval counted from now.
pub bringup_autosend-ok_iff :
    (c : Setting) (assign_hex : Bytes → Bytes) (hex : Bytes) (now : ℕ) (s : Device c)
    → s.autosend_ok ≡ false
    → let t = bringup_autosend c assign_hex hex now s in
      ((t.autosend_ok ≡ true)
        ↔ ((length hex ≡ 32) × All IsHex hex × (length (assign_hex hex) ≡ 16)))
      × (t.autosend_ok ≡ true → (t.autosend_dest ≡ assign_hex hex) × (t.last_autosend ≡ now))
unfolding bringup_autosend
bringup_autosend-ok_iff c assign_hex hex now s off =
    let digits = all_hex_iff hex in
    elim (Bool-cases (length hex == 32)) [
      | inr short ↦ rw short ((λ h. cc, λ h. absurd (ground arith)), λ h. cc)
      | inl size ↦ elim (Bool-cases (all_hex hex)) [
        | inr other ↦ rw (size, other) ((λ h. cc, λ h. cc (other, digits.1 h.1)), λ h. cc)
        | inl all ↦ elim (Bool-cases (length (assign_hex hex) == 16)) [
          | inr wrong ↦ rw (size, all, wrong) ((λ h. cc, λ h. absurd (ground arith)), λ h. cc)
          | inl right ↦
              rw (size, all, right)
                ((λ h. (ground arith, digits.0 all, ground arith), λ h. refl), λ h. (refl, refl))
        ]
      ]
    ]
