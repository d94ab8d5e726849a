-- ===== src/App/Figures.antt =====
-- The low-RAM probe and the figures of the pool: what they count.
use thicket_firmware.Base.{
  ℕ, zero, suc, ◌+◌, ◌^◌, ◌≤◌, ◌<◌, ◌≡◌, refl, ap, ◌∙◌, arith, Bool, true, false, List, [], ◌∷◌,
  ◌==◌, ==_refl, if◌then◌else◌, Bool-cases, inl, inr, u32, max,
}
use thicket_firmware.Base.Memory.{Memory, store}
use thicket_firmware.App.LowRam.{
  lowram_start, lowram_words, pattern_at, count_bad, lowram_check, write_pattern, probe_low_ram,
  PoolUse, count_block, walk_pool, no_blocks,
}

-- The words from `a` on that do not hold the pattern.
pub differing : Memory → ℕ → ℕ → ℕ
differing ram zero a = 0
differing ram (suc n) a = (if ram a == pattern_at a then 0 else 1) + differing ram n (a + 4)

differing-le : (ram : Memory) (n a : ℕ) → differing ram n a ≤ n
unfolding differing
differing-le ram zero a = omega arith
differing-le ram (suc n) a = ground (arith, differing-le ram n (a + 4))

count_bad-differing :
    (ram : Memory) (n a bad : ℕ)
    → bad + n < 2 ^ 32
    → count_bad ram n a bad ≡ bad + differing ram n a
unfolding count_bad differing
count_bad-differing ram zero a bad h = omega arith
count_bad-differing ram (suc n) a bad h = elim (Bool-cases (ram a == pattern_at a)) [
  | inl same ↦ rw same (omega (arith, count_bad-differing ram n (a + 4) bad (omega arith)))
  | inr other ↦
      rw other (ground (arith, count_bad-differing ram n (a + 4) (u32 (bad + 1)) (omega arith)))
]

-- A loop of writes leaves what is below it, and writes the pattern from `a` on.
write_pattern-below : (n a : ℕ) (ram : Memory) (j : ℕ) → j < a → write_pattern n a ram j ≡ ram j
unfolding write_pattern
write_pattern-below zero a ram j h = refl
write_pattern-below (suc n) a ram j h =
    ground (arith, write_pattern-below n (a + 4) (store ram a (pattern_at a)) j (omega arith))

differing-write_pattern : (n a : ℕ) (ram : Memory) → differing (write_pattern n a ram) n a ≡ 0
unfolding write_pattern differing
differing-write_pattern zero a ram = refl
differing-write_pattern (suc n) a ram =
    let ram' = store ram a (pattern_at a) in
    let kept : write_pattern n (a + 4) ram' a ≡ pattern_at a =
      write_pattern-below n (a + 4) ram' a (omega arith) ∙ ground arith in
    rw kept (rw (==_refl (pattern_at a)) (omega (arith, differing-write_pattern n (a + 4) ram')))

-- A later check reports how many of the 6080 words of the window do not hold the pattern, and the
-- check right after the writing reports none, whatever the memory held before.
pub lowram_check-differing :
    (ram later : Memory)
    → ((probe_low_ram ram).1 ≡ 0) × (lowram_check later ≡ differing later lowram_words lowram_start)
unfolding probe_low_ram lowram_check
lowram_check-differing ram later = (
  count_bad-differing (write_pattern lowram_words lowram_start ram) lowram_words lowram_start 0
        (omega arith)
      ∙ ap (λ k. 0 + k) (differing-write_pattern lowram_words lowram_start ram),
  count_bad-differing later lowram_words lowram_start 0 (omega arith) ∙ omega arith,
)

-- Sums over the blocks of a pool, in use or free, and the largest of the free ones.
pub total : Bool → List (ℕ × Bool) → ℕ
total which [] = 0
total true ((size, true) ∷ ls) = size + total true ls
total true ((size, false) ∷ ls) = total true ls
total false ((size, true) ∷ ls) = total false ls
total false ((size, false) ∷ ls) = size + total false ls

pub largest : List (ℕ × Bool) → ℕ
largest [] = 0
largest ((size, true) ∷ ls) = largest ls
largest ((size, false) ∷ ls) = max size (largest ls)

-- What the walk has counted so far, with the rest of the pool still to come.
record Counted (x : PoolUse) (ls : List (ℕ × Bool)) (y : PoolUse) : Type 0 where
  us : y.us ≡ x.us + total true ls
  fs : y.fs ≡ x.fs + total false ls
  fmax : y.fmax ≡ max x.fmax (largest ls)

walk_pool-Counted :
    (ls : List (ℕ × Bool)) (x : PoolUse)
    → x.us + total true ls < 2 ^ 32
    → x.fs + total false ls < 2 ^ 32
    → Counted x ls (walk_pool ls x)
unfolding walk_pool count_block total largest
walk_pool-Counted [] x h k = record { us = omega arith; fs = omega arith; fmax = omega arith }
walk_pool-Counted ((size, true) ∷ ls) x h k =
    let more = walk_pool-Counted ls (count_block size true x) (omega arith) k in
    record { us = omega (arith, more.us); fs = more.fs; fmax = more.fmax }
walk_pool-Counted ((size, false) ∷ ls) x h k =
    let more = walk_pool-Counted ls (count_block size false x) h (omega arith) in
    record { us = more.us; fs = omega (arith, more.fs); fmax = ground (arith, more.fmax) }

largest-le : (ls : List (ℕ × Bool)) → largest ls ≤ total false ls
unfolding largest total
largest-le [] = omega arith
largest-le ((size, true) ∷ ls) = largest-le ls
largest-le ((size, false) ∷ ls) = omega (arith, largest-le ls)

-- Over a pool of less than 2^32 bytes, the walk finds the bytes in use, the free bytes and the
-- largest free block, which is no larger than the free bytes together, so that the share that is
-- printed as fragmentation is none below zero.
pub walk_pool-total :
    (ls : List (ℕ × Bool))
    → total true ls + total false ls < 2 ^ 32
    → let x = walk_pool ls no_blocks in
      (x.us ≡ total true ls) × (x.fs ≡ total false ls) × (x.fmax ≡ largest ls) × (x.fmax ≤ x.fs)
unfolding no_blocks
walk_pool-total ls h =
    let counted = walk_pool-Counted ls no_blocks (omega arith) (omega arith) in
    (
      omega (arith, counted.us),
      omega (arith, counted.fs),
      omega (arith, counted.fmax),
      omega (arith, counted.fmax, counted.fs, largest-le ls),
    )
