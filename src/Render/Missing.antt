-- ===== src/Render/Missing.antt =====
-- The table of missing glyphs, against a count for every codepoint.
use thicket_firmware.Base.{
  ℕ, ◌+◌, ◌≤◌, ◌≡◌, inl, inr, refl, arith, Bool, true, false, ◌||◌, ◌&&◌, not, List, [], ◌∷◌, ◌++◌,
  none, some, ltb, ◌==◌, if◌then◌else◌, u16, u32, length, length-append, Option-cases,
}
use thicket_firmware.Render.State.{PageRenderer, Missing}
use thicket_firmware.Render.Page.{note_missing, count_again}

-- How often a codepoint was counted, and whether it has an entry.
abbrev pub tally : ℕ → List Missing → ℕ
tally cp [] = 0
tally cp (m ∷ ms) = if m.cp == cp then m.n else tally cp ms

abbrev pub known : ℕ → List Missing → Bool
known cp [] = false
known cp (m ∷ ms) = m.cp == cp || known cp ms

count_again-some :
    (cp q : ℕ) (ms ms' : List Missing)
    → count_again cp ms ≡ some ms'
    → (known cp ms ≡ true)
      × (length ms' ≡ length ms)
      × (tally q ms' ≡ (if q == cp then u16 (tally cp ms + 1) else tally q ms))
      × (known q ms' ≡ known q ms)
unfolding count_again
count_again-some cp q [] ms' e = cc
count_again-some cp q (m ∷ ms) ms' e = elim (Option-cases (count_again cp ms)) [
  | inl none_left ↦ ground arith
  | inr (rest, found) ↦ ground (arith, count_again-some cp q ms rest found)
]

count_again-none : (cp : ℕ) (ms : List Missing) → count_again cp ms ≡ none → known cp ms ≡ false
unfolding count_again
count_again-none cp [] e = refl
count_again-none cp (m ∷ ms) e = elim (Option-cases (count_again cp ms)) [
  | inl none_left ↦ ground (arith, count_again-none cp ms none_left)
  | inr (rest, found) ↦ ground arith
]

tally-append :
    (q cp : ℕ) (ms : List Missing)
    → known cp ms ≡ false
    → (tally q (ms ++ record { cp = cp; n = 1 } ∷ []) ≡ (if q == cp then 1 else tally q ms))
      × (known q (ms ++ record { cp = cp; n = 1 } ∷ []) ≡ known q ms || q == cp)
tally-append q cp [] e = ground arith
tally-append q cp (m ∷ ms) e = ground (arith, tally-append q cp ms)

tally-unknown : (cp : ℕ) (ms : List Missing) → known cp ms ≡ false → tally cp ms ≡ 0
tally-unknown cp [] e = refl
tally-unknown cp (m ∷ ms) e = ground (arith, tally-unknown cp ms)

-- Whether a codepoint still finds a place in the table.
abbrev pub has_room : ℕ → PageRenderer → Bool
has_room cp p = known cp p.missing || ltb (length p.missing) 24

-- In a table of at most 24 codepoints, a missing glyph is always counted in the 32-bit total. A
-- codepoint that the table holds, or has room for, is counted under itself, at 16 bits, and every
-- other count stays; otherwise every count stays and the overflow is reported. The table never
-- grows past 24 codepoints, and a codepoint that it holds is never lost.
pub note_missing-tally :
    (cp q : ℕ) (p : PageRenderer)
    → length p.missing ≤ 24
    → let p' = note_missing cp p in
      (p'.missing_total ≡ u32 (p.missing_total + 1))
      × (tally q p'.missing
          ≡ (if q == cp && has_room cp p then u16 (tally cp p.missing + 1) else tally q p.missing))
      × (known q p'.missing ≡ known q p.missing || (q == cp && has_room cp p))
      × (p'.missing_over ≡ p.missing_over || not (has_room cp p))
      × (length p'.missing ≤ 24)
unfolding note_missing
note_missing-tally cp q p small = elim (Option-cases (count_again cp p.missing)) [
  | inl unknown ↦ ground (
    arith,
    count_again-none cp p.missing unknown,
    tally-unknown cp p.missing,
    tally-append q cp p.missing,
    length-append p.missing (record { cp = cp; n = 1 } ∷ []),
  )
  | inr (ms, again) ↦ ground (arith, again, count_again-some cp q p.missing ms again)
]
