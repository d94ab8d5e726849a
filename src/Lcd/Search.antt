-- ===== src/Lcd/Search.antt =====
-- The binary search of the glyph tables.
use thicket_firmware.Base.{
  ℕ, zero, suc, ◌+◌, ◌/◌, ◌≤◌, ◌<◌, ◌≡◌, ◌≢◌, refl, arith, Bool, true, List, Option, none, some,
  ltb, ◌==◌, Bool-cases, inl, inr, u16, get_or, leb, ◌||◌, ◌∙◌,
}
use thicket_firmware.Base.Bits.{holds_below, both_below, both_below_sound}
use thicket_firmware.Lcd.Text.{Table, search, find, emoji, emoji_cps}

-- What the generators of the tables promise: the codepoints rise, and 16 bits count them.
pub record IsSorted (table : Table) : Type 0 where
  pub rising : (i j : ℕ) → i < j → j < table.count → table.cp i < table.cp j
  pub small : table.count < 65536

-- The answer of a search that looks at every entry.
pub data IsFound (table : Table) (cp : ℕ) : Option (List ℕ) → Type 0 where
  missing : ((i : ℕ) → i < table.count → table.cp i ≢ cp) → IsFound table cp none
  entry : (i : ℕ) → i < table.count → table.cp i ≡ cp → IsFound table cp (some (table.rows i))

search-IsFound :
    (fuel : ℕ) (table : Table) (lo hi cp : ℕ)
    → IsSorted table
    → lo ≤ hi
    → hi ≤ table.count
    → hi < lo + fuel
    → ((i : ℕ) → i < lo → table.cp i < cp)
    → ((i : ℕ) → hi ≤ i → i < table.count → cp < table.cp i)
    → (r : Option (List ℕ)) × (search fuel table lo hi cp ≡ some r) × IsFound table cp r
unfolding search
search-IsFound zero table lo hi cp ok order bound enough below above = absurd (omega arith)
search-IsFound (suc fuel) table lo hi cp ok order bound enough below above =
    let m = (lo + hi) / 2 in
    elim (Bool-cases (ltb lo hi)) [
      | inr done ↦
          (none, rw done refl, IsFound.missing (λ i hi e. ground (arith, below i, above i)))
      | inl more ↦
          let mid : u16 m ≡ m = ground (arith, ok.small) in
          let after : u16 (m + 1) ≡ m + 1 = ground (arith, ok.small) in
          let inside : m < table.count = ground arith in
          elim (Bool-cases (table.cp m == cp)) [
            | inl here ↦ (
              some (table.rows m),
              rw (more, mid, here) refl,
              IsFound.entry m inside (ground arith),
            )
            | inr there ↦ elim (Bool-cases (ltb (table.cp m) cp)) [
              | inl right ↦
                  let rest =
                    search-IsFound fuel table (m + 1) hi cp ok (ground arith) bound (ground arith)
                      (λ i h. ground (arith, ok.rising i m)) above in
                  let step : search (suc fuel) table lo hi cp ≡ search fuel table (m + 1) hi cp =
                    rw (more, mid, there, right, after) refl in
                  (rest.0, step ∙ rest.1, rest.2)
              | inr left ↦
                  let rest =
                    search-IsFound fuel table lo m cp ok (ground arith) (omega arith) (ground arith)
                      below (λ i h k. ground (arith, ok.rising m i)) in
                  let step : search (suc fuel) table lo hi cp ≡ search fuel table lo m cp =
                    rw (more, mid, there, left) refl in
                  (rest.0, step ∙ rest.1, rest.2)
            ]
          ]
    ]

-- In a sorted table of fewer than 65536 entries the search stops within one round more than the
-- table has entries, and finds an entry of the codepoint exactly if the table has one.
pub find-IsFound :
    (table : Table) (cp : ℕ)
    → IsSorted table
    → (search (suc table.count) table 0 table.count cp ≡ some (find table cp))
      × IsFound table cp (find table cp)
unfolding find
find-IsFound table cp ok =
    let all =
      search-IsFound (suc table.count) table 0 table.count cp ok (omega arith) (omega arith)
        (omega arith) (λ i h. omega arith) (λ i h k. omega arith) in
    rw all.1 (refl, all.2)

abbrev emoji_ordered : ℕ → ℕ → Bool
emoji_ordered i j = leb j i || ltb (get_or emoji_cps i 0) (get_or emoji_cps j 0)

emoji_table : both_below 8 8 emoji_ordered ≡ true
unfolding holds_below
emoji_table = refl

-- The hand-written table of emoji is sorted.
pub emoji-IsSorted : IsSorted emoji
unfolding emoji
emoji-IsSorted = record {
  rising = λ i j h k. ground (arith, both_below_sound 8 8 emoji_ordered i j emoji_table);
  small = omega arith;
}
