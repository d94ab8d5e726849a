-- ===== src/Render/Divider.antt =====
-- The character of a divider: its bytes are its UTF-8.
use thicket_firmware.Base.{
  ℕ, ◌+◌, ◌/◌, ◌%◌, ◌<◌, ◌≡◌, ◌∙◌, refl, sym, ap, arith, true, [], ◌∷◌, ◌++◌, append-nil, ltb, u8,
  bit_and, bit_or, Bool-cases, inl, inr,
}
use thicket_firmware.Base.Bits.{holds_below, byte_table, bit_and_63}
use thicket_firmware.Lcd.Utf8.{utf8, decode, decode-utf8}
use thicket_firmware.Render.Page.{until_nul}
use thicket_firmware.Render.Events.{divider_bytes}

tail_byte : (b : ℕ) → b < 64 → u8 (bit_or 0x80 b) ≡ 0x80 + b
unfolding holds_below
tail_byte b h = byte_table 64 (λ k. u8 (bit_or 0x80 k)) (λ k. 0x80 + k) b refl h

two_byte : (b : ℕ) → b < 32 → u8 (bit_or 0xC0 b) ≡ 0xC0 + b
unfolding holds_below
two_byte b h = byte_table 32 (λ k. u8 (bit_or 0xC0 k)) (λ k. 0xC0 + k) b refl h

three_byte : (b : ℕ) → b < 16 → u8 (bit_or 0xE0 b) ≡ 0xE0 + b
unfolding holds_below
three_byte b h = byte_table 16 (λ k. u8 (bit_or 0xE0 k)) (λ k. 0xE0 + k) b refl h

tail_of : (a : ℕ) → u8 (bit_or 0x80 (bit_and a 0x3F)) ≡ 0x80 + a % 64
tail_of a = ap (λ k. u8 (bit_or 0x80 k)) (bit_and_63 a) ∙ tail_byte (a % 64) (omega arith)

divider_bytes-utf8 : (ch : ℕ) → ch < 0x10000 → divider_bytes ch ≡ utf8 ch
unfolding divider_bytes utf8
divider_bytes-utf8 ch h = elim (Bool-cases (ltb ch 0x80)) [
  | inl one ↦ rw one (ap (λ b. b ∷ []) (ground arith))
  | inr more ↦ elim (Bool-cases (ltb ch 0x800)) [
    | inl two ↦ rw (more, two, tail_of ch, two_byte (ch / 64) (ground arith)) refl
    | inr wide ↦
        let three : ltb ch 0x10000 ≡ true = ground arith in
        rw (more, wide, three, tail_of ch, tail_of (ch / 64), three_byte (ch / 4096) (ground arith))
          refl
  ]
]

until_nul-utf8 : (ch : ℕ) → 0 < ch → until_nul (utf8 ch) ≡ utf8 ch
unfolding until_nul utf8
until_nul-utf8 ch some_char = ground arith

-- The bytes of a divider's character, other than U+0000 and below U+10000, are a text without a
-- NUL that decodes to the character again, with nothing left.
pub decode-divider_bytes :
    (ch : ℕ) → 0 < ch → ch < 0x10000 → decode (until_nul (divider_bytes ch)) ≡ (ch, [])
decode-divider_bytes ch some_char h =
    let whole : until_nul (utf8 ch) ≡ utf8 ch = until_nul-utf8 ch some_char in
    let plain : utf8 ch ++ [] ≡ utf8 ch = append-nil (utf8 ch) in
    rw (divider_bytes-utf8 ch h, whole, sym plain) (decode-utf8 ch [] (omega arith))
