-- ===== src/Lcd/Utf8.antt =====
-- The UTF-8 decoder against the encoding.
use thicket_firmware.Base.{
  ℕ, zero, suc, ◌+◌, ◌*◌, ◌/◌, ◌%◌, ◌≤◌, ◌<◌, ◌≡◌, refl, arith, true, List, [], ◌∷◌, ◌++◌, ltb,
  ◌==◌, if◌then◌else◌, Bool-cases, inl, inr, bit_and, bit_or, length, ◌<<<◌, ◌&&◌, not, ap, ◌∙◌,
  ◌^◌,
}
use thicket_firmware.Base.Bits.{bit_or-append_six, holds_below, holds_below_sound}
use thicket_firmware.Lcd.Text.{continued, next_cp}

-- A codepoint below 2^21 as UTF-8.
unfoldable pub utf8 : ℕ → List ℕ
utf8 cp =
    if ltb cp 0x80
    then cp ∷ []
    else (if ltb cp 0x800
        then (0xC0 + cp / 64) ∷ (0x80 + cp % 64) ∷ []
        else (if ltb cp 0x10000
            then (0xE0 + cp / 4096) ∷ (0x80 + cp / 64 % 64) ∷ (0x80 + cp % 64) ∷ []
            else (0xF0 + cp / 262144)
              ∷ (0x80 + cp / 4096 % 64)
              ∷ (0x80 + cp / 64 % 64)
              ∷ (0x80 + cp % 64)
              ∷ []))

tail_table :
    holds_below 64 (λ b. bit_and (0x80 + b) 0xC0 == 0x80 && bit_and (0x80 + b) 0x3F == b) ≡ true
unfolding holds_below
tail_table = refl

-- One continuation byte.
continued-tail :
    (extra cp b : ℕ) (s : List ℕ)
    → b < 64
    → continued (suc extra) cp ((0x80 + b) ∷ s) ≡ continued extra (bit_or (cp <<< 6) b) s
unfolding continued
continued-tail extra cp b s h = ground (
  arith,
  holds_below_sound 64 (λ b. bit_and (0x80 + b) 0xC0 == 0x80 && bit_and (0x80 + b) 0x3F == b) b
      tail_table,
)

lead_two :
    holds_below 32 (λ k.
      not (ltb (0xC0 + k) 0x80) && bit_and (0xC0 + k) 0xE0 == 0xC0 && bit_and (0xC0 + k) 0x1F == k)
    ≡ true
unfolding holds_below
lead_two = refl

lead_three :
    holds_below 16 (λ k.
      not (ltb (0xE0 + k) 0x80)
      && not (bit_and (0xE0 + k) 0xE0 == 0xC0)
      && bit_and (0xE0 + k) 0xF0 == 0xE0
      && bit_and (0xE0 + k) 0x0F == k)
    ≡ true
unfolding holds_below
lead_three = refl

lead_four :
    holds_below 8 (λ k.
      not (ltb (0xF0 + k) 0x80)
      && not (bit_and (0xF0 + k) 0xE0 == 0xC0)
      && not (bit_and (0xF0 + k) 0xF0 == 0xE0)
      && bit_and (0xF0 + k) 0xF8 == 0xF0
      && bit_and (0xF0 + k) 0x07 == k)
    ≡ true
unfolding holds_below
lead_four = refl

-- The first byte of a sequence says how many follow and carries the first bits.
next_cp-two : (k : ℕ) (s : List ℕ) → k < 32 → next_cp (0xC0 + k) s ≡ continued 1 k s
unfolding next_cp
next_cp-two k s h = ground (arith, holds_below_sound 32 _ k lead_two)

next_cp-three : (k : ℕ) (s : List ℕ) → k < 16 → next_cp (0xE0 + k) s ≡ continued 2 k s
unfolding next_cp
next_cp-three k s h = ground (arith, holds_below_sound 16 _ k lead_three)

next_cp-four : (k : ℕ) (s : List ℕ) → k < 8 → next_cp (0xF0 + k) s ≡ continued 3 k s
unfolding next_cp
next_cp-four k s h = ground (arith, holds_below_sound 8 _ k lead_four)

next_cp-one : (k : ℕ) (s : List ℕ) → k < 0x80 → next_cp k s ≡ (k, s)
unfolding next_cp
next_cp-one k s h = ground arith

-- The decoder on a text that is not empty.
abbrev pub decode : List ℕ → ℕ × List ℕ
decode [] = (0, [])
decode (c ∷ s) = next_cp c s

one_more :
    (extra cp b : ℕ) (s : List ℕ)
    → b < 64
    → continued (suc extra) cp ((0x80 + b) ∷ s) ≡ continued extra (cp * 64 + b) s
one_more extra cp b s h =
    continued-tail extra cp b s h ∙ ap (λ t. continued extra t s) (bit_or-append_six cp b h)

done : (cp : ℕ) (s : List ℕ) → continued 0 cp s ≡ (cp, s)
unfolding continued
done cp s = refl

-- Decoding undoes encoding: the first codepoint of a text that starts with the UTF-8 of a
-- codepoint below 2^21 is that codepoint, and what follows it is left.
pub decode-utf8 : (cp : ℕ) (s : List ℕ) → cp < 2 ^ 21 → decode (utf8 cp ++ s) ≡ (cp, s)
unfolding utf8
decode-utf8 cp s h = elim (Bool-cases (ltb cp 0x80)) [
  | inl one ↦ rw one (next_cp-one cp s (ground arith))
  | inr more ↦ elim (Bool-cases (ltb cp 0x800)) [
    | inl two ↦
        rw (more, two)
          (next_cp-two (cp / 64) _ (ground arith)
            ∙ one_more 0 (cp / 64) (cp % 64) s (omega arith)
            ∙ done _ s
            ∙ ap (λ t. (t, s)) (omega arith))
    | inr wide ↦ elim (Bool-cases (ltb cp 0x10000)) [
      | inl three ↦
          rw (more, wide, three)
            (next_cp-three (cp / 4096) _ (ground arith)
              ∙ one_more 1 (cp / 4096) (cp / 64 % 64) _ (omega arith)
              ∙ one_more 0 _ (cp % 64) s (omega arith)
              ∙ done _ s
              ∙ ap (λ t. (t, s)) (omega arith))
      | inr astral ↦
          rw (more, wide, astral)
            (next_cp-four (cp / 262144) _ (ground arith)
              ∙ one_more 2 (cp / 262144) (cp / 4096 % 64) _ (omega arith)
              ∙ one_more 1 _ (cp / 64 % 64) _ (omega arith)
              ∙ one_more 0 _ (cp % 64) s (omega arith)
              ∙ done _ s
              ∙ ap (λ t. (t, s)) (omega arith))
    ]
  ]
]

continued-shorter : (extra cp : ℕ) (s : List ℕ) → length (continued extra cp s).1 ≤ length s
unfolding continued
continued-shorter zero cp s = omega arith
continued-shorter (suc extra) cp [] = omega arith
continued-shorter (suc extra) cp (c ∷ s) =
    let rest = continued-shorter extra (bit_or (cp <<< 6) (bit_and c 0x3F)) s in ground arith

-- A walk by codepoints gets nearer to the end with each.
pub next_cp-shorter : (c : ℕ) (s : List ℕ) → length (next_cp c s).1 ≤ length s
unfolding next_cp
next_cp-shorter c s = ground (
  arith,
  continued-shorter 1 (bit_and c 0x1F) s,
  continued-shorter 2 (bit_and c 0x0F) s,
  continued-shorter 3 (bit_and c 0x07) s,
)
