-- ===== src/Render/Heading.antt =====
-- The face of a heading: it has every codepoint of the run that begins the row.
use thicket_firmware.Base.{
  ℕ, zero, suc, ◌+◌, ◌-◌, ◌*◌, ◌/◌, ◌≤◌, ◌<◌, ◌≡◌, ◌⊎◌, ◌∙◌, refl, sym, ap, arith, Bool, true,
  false, [], ◌∷◌, ltb, leb, ◌==◌, if◌then◌else◌, ◌<<<◌, bit_and, bit_or, Bool-cases, inl, inr,
}
use thicket_firmware.Base.Bits.{bit_or_step}
use thicket_firmware.Base.Memory.{Memory, slice}
use thicket_firmware.Lcd.Text.{Fonts, continued, next_cp}
use thicket_firmware.Render.State.{Style, PageRenderer}
use thicket_firmware.Render.Page.{seq_len, glyph_cp}
use thicket_firmware.Render.Faces.{face_has, big_has, bold_has, head_bold_face}
use thicket_firmware.Render.Words.{seq_len-range}
use thicket_firmware.Render.Events.{
  heading_cp, head_face, all_in_face, wanted_face, takes_face, choose_face,
}

-- A continuation byte.
abbrev pub Continuation : ℕ → Type 0
Continuation c = bit_and c 0xC0 ≡ 0x80

-- A well-formed sequence of one, two or three bytes.
unfoldable pub IsSequence : Memory → ℕ → Type 0
IsSequence t k =
    (t k < 0x80)
    ⊎ (((seq_len (t k) ≡ 2) × Continuation (t (k + 1)))
        ⊎ ((seq_len (t k) ≡ 3) × Continuation (t (k + 1)) × Continuation (t (k + 1 + 1))))

bit_or-double : (a b : ℕ) → bit_or (a * 2) (b * 2) ≡ bit_or a b * 2
bit_or-double a b =
    let low : a * 2 / 2 ≡ a = omega arith in
    let high : b * 2 / 2 ≡ b = omega arith in
    omega (arith, rw (low, high) at (bit_or_step (a * 2) (b * 2)))

-- Both ways to put three pieces of six bits together.
bit_or-shift : (a b : ℕ) → bit_or (a <<< 12) (b <<< 6) ≡ bit_or (a <<< 6) b <<< 6
bit_or-shift a b =
    let apart : (m n : ℕ) → bit_or (m * 64) (n * 64) ≡ bit_or m n * 64 = λ m n.
      let split : (x : ℕ) → x * 64 ≡ x * 2 * 2 * 2 * 2 * 2 * 2 = λ x. omega arith in
      rw
        (
          split m,
          split n,
          bit_or-double (m * 2 * 2 * 2 * 2 * 2) (n * 2 * 2 * 2 * 2 * 2),
          bit_or-double (m * 2 * 2 * 2 * 2) (n * 2 * 2 * 2 * 2),
          bit_or-double (m * 2 * 2 * 2) (n * 2 * 2 * 2),
          bit_or-double (m * 2 * 2) (n * 2 * 2),
          bit_or-double (m * 2) (n * 2),
          bit_or-double m n,
        )
        (omega arith) in
    let twice : a * 4096 ≡ a * 64 * 64 = omega arith in rw twice (apart (a * 64) b)

seq_len-two : (c : ℕ) → seq_len c ≡ 2 → (ltb c 0x80 ≡ false) × ((bit_and c 0xE0 == 0xC0) ≡ true)
unfolding seq_len
seq_len-two c h = ground arith

seq_len-three :
    (c : ℕ)
    → seq_len c ≡ 3
    → (ltb c 0x80 ≡ false) × ((bit_and c 0xE0 == 0xC0) ≡ false) × ((bit_and c 0xF0 == 0xE0) ≡ true)
unfolding seq_len
seq_len-three c h = ground arith

seq_len-one : (c : ℕ) → c < 0x80 → seq_len c ≡ 1
unfolding seq_len
seq_len-one c h = ground arith

next_cp-two :
    (c d : ℕ)
    → seq_len c ≡ 2
    → Continuation d
    → (next_cp c (d ∷ [])).0 ≡ bit_or (bit_and c 0x1F <<< 6) (bit_and d 0x3F)
unfolding next_cp continued
next_cp-two c d two tail = ground (arith, seq_len-two c two)

next_cp-three :
    (c d e : ℕ)
    → seq_len c ≡ 3
    → Continuation d
    → Continuation e
    → (next_cp c (d ∷ e ∷ [])).0
      ≡ bit_or (bit_or (bit_and c 0x0F <<< 6) (bit_and d 0x3F) <<< 6) (bit_and e 0x3F)
unfolding next_cp continued
next_cp-three c d e three tail last = ground (arith, seq_len-three c three)

-- A heading's own decoder is that of the display, on sequences of up to three bytes.
heading_cp-glyph_cp : (t : Memory) (k : ℕ) → IsSequence t k → heading_cp t k ≡ glyph_cp t k
unfolding heading_cp IsSequence slice
heading_cp-glyph_cp t k ok =
    let bytes : (l : ℕ)
        → seq_len (t k) ≡ l
        → glyph_cp t k ≡ (next_cp (t k) (slice t (k + 1) (l - 1))).0 =
      λ _ e. ap (λ l. (next_cp (t k) (slice t (k + 1) (l - 1))).0) e in
    elim ok [
      | inl one ↦
          let plain : glyph_cp t k ≡ t k = unfold next_cp in ground arith in
          rw (seq_len-one (t k) one) (sym plain)
      | inr (inl (two, tail)) ↦
          let cp = bytes 2 two ∙ next_cp-two (t k) (t (k + 1)) two tail in rw two (sym cp)
      | inr (inr (three, tail, last)) ↦
          let next : k + 2 ≡ k + 1 + 1 = omega arith in
          let low = bit_and (t (k + 1 + 1)) 0x3F in
          let shift = bit_or-shift (bit_and (t k) 0x0F) (bit_and (t (k + 1)) 0x3F) in
          let cp =
            bytes 3 three ∙ next_cp-three (t k) (t (k + 1)) (t (k + 1 + 1)) three tail last in
          rw (three, next) (ap (λ m. bit_or m low) shift ∙ sym cp)
    ]

-- Where glyph `m` of a run begins, from `k` on.
unfoldable pub glyph_at : ℕ → Memory → ℕ → ℕ
glyph_at zero t k = k
glyph_at (suc m) t k = glyph_at m t (k + seq_len (t k))

glyph_at-index : (m : ℕ) (t : Memory) (k : ℕ) → k + m ≤ glyph_at m t k
unfolding glyph_at
glyph_at-index zero t k = omega arith
glyph_at-index (suc m) t k =
    omega (arith, glyph_at-index m t (k + seq_len (t k)), (seq_len-range (t k)).0)

glyph_at-le : (m : ℕ) (t : Memory) (k : ℕ) → k ≤ glyph_at m t k
unfolding glyph_at
glyph_at-le zero t k = omega arith
glyph_at-le (suc m) t k = omega (arith, glyph_at-le m t (k + seq_len (t k)))

abbrev has_face : Fonts → ℕ → ℕ → Bool
has_face fonts want cp = if want == 1 then big_has fonts cp else bold_has fonts cp (head_face want)

all_in_face-glyph_at :
    (left : ℕ) (fonts : Fonts) (want : ℕ) (t : Memory) (n k m : ℕ)
    → all_in_face left fonts want t n k ≡ true
    → m < left
    → glyph_at m t k < n
    → has_face fonts want (heading_cp t (glyph_at m t k)) ≡ true
unfolding all_in_face glyph_at
all_in_face-glyph_at zero fonts want t n k m all few inside = absurd (omega arith)
all_in_face-glyph_at (suc left) fonts want t n k zero all few inside = ground (arith, all)
all_in_face-glyph_at (suc left) fonts want t n k (suc m) all few inside =
    let more : ltb k n ≡ true = ground (arith, glyph_at-le m t (k + seq_len (t k))) in
    let rest : all_in_face left fonts want t n (k + seq_len (t k)) ≡ true =
      ground (arith, all, more) in
    all_in_face-glyph_at left fonts want t n (k + seq_len (t k)) m rest (omega arith) inside

-- The face that is chosen has a glyph.
chosen-face_has :
    (fonts : Fonts) (cp : ℕ) (s : Style) (p : PageRenderer)
    → p.head ≡ wanted_face s
    → has_face fonts (wanted_face s) cp ≡ true
    → face_has fonts cp p ≡ true
unfolding face_has head_bold_face
chosen-face_has fonts cp s p chosen has = elim (Bool-cases (leb s.depth 1)) [
  | inl first ↦ ground (arith, chosen, has, first)
  | inr deeper ↦ ground (arith, chosen, has, deeper)
]

-- Where a run that begins a row gives the row a heading's face, that face has a glyph for every
-- codepoint of this run: for each glyph of the run that is a well-formed sequence of up to three
-- bytes, the codepoint that the display decodes is one that the row's face carries, so that none of
-- them is counted as missing. Of later runs on the row nothing is said.
pub choose_face-face_has :
    (fonts : Fonts) (t : Memory) (n : ℕ) (s : Style) (p : PageRenderer) (m : ℕ)
    → takes_face fonts t n s p ≡ true
    → glyph_at m t 0 < n
    → IsSequence t (glyph_at m t 0)
    → let q = choose_face fonts t n s p in
      (q.head ≡ wanted_face s) × (face_has fonts (glyph_cp t (glyph_at m t 0)) q ≡ true)
unfolding choose_face
choose_face-face_has fonts t n s p m takes inside ok =
    let all : all_in_face n fonts (wanted_face s) t n 0 ≡ true = ground (arith, takes) in
    let few : m < n = omega (arith, inside, glyph_at-index m t 0) in
    let has = all_in_face-glyph_at n fonts (wanted_face s) t n 0 m all few inside in
    let same = heading_cp-glyph_cp t (glyph_at m t 0) ok in
    let q = choose_face fonts t n s p in
    let head : q.head ≡ wanted_face s = rw takes refl in
    (head, chosen-face_has fonts (glyph_cp t (glyph_at m t 0)) s q head (rw same at has))
