-- ===== src/App/LowRam.antt =====
-- src/main.cpp: `probe_low_ram` and `lowram_check`, over a memory of 32-bit words by address, and
-- the figures of `pool_soak_sample`.
use thicket_firmware.Base.{
  ℕ, zero, suc, ◌+◌, ◌-◌, ◌^◌, Bool, true, false, not, ◌&&◌, List, [], ◌∷◌, bit_xor, ltb, ◌==◌,
  if◌then◌else◌, u32, Option, none, some,
}
use thicket_firmware.Base.Memory.{Memory, store}

abbrev pub lowram_start : ℕ
lowram_start = 0x20000100

abbrev pub lowram_end : ℕ
lowram_end = 0x20006000

-- The rounds that a loop over the window by words makes.
abbrev pub lowram_words : ℕ
lowram_words = 6080

unfoldable pub pattern_at : ℕ → ℕ
pattern_at a = bit_xor a 0xA5A5A5A5

-- `for (a = ...; a < LOWRAM_END; a += 4)`, by the rounds left.
unfoldable pub count_bad : Memory → ℕ → ℕ → ℕ → ℕ
count_bad ram zero a bad = bad
count_bad ram (suc left) a bad =
    count_bad ram left (a + 4) (if ram a == pattern_at a then bad else u32 (bad + 1))

unfoldable pub lowram_check : Memory → ℕ
lowram_check ram = count_bad ram lowram_words lowram_start 0

unfoldable pub write_pattern : ℕ → ℕ → Memory → Memory
write_pattern zero a ram = ram
write_pattern (suc left) a ram = write_pattern left (a + 4) (store ram a (pattern_at a))

-- The memory after it, and the mismatches that it reports.
unfoldable pub probe_low_ram : Memory → Memory × ℕ
probe_low_ram ram =
    let ram' = write_pattern lowram_words lowram_start ram in (ram', lowram_check ram')

-- `struct Acc` of `pool_soak_sample`.
pub record PoolUse : Type 0 where
  pub uc : ℕ
  pub us : ℕ
  pub fc : ℕ
  pub fs : ℕ
  pub fmax : ℕ

-- One block of the pool: its size, and whether it is in use.
unfoldable pub count_block : ℕ → Bool → PoolUse → PoolUse
count_block size true x = record x { uc = u32 (x.uc + 1); us = u32 (x.us + u32 size) }
count_block size false x = record x {
  fc = u32 (x.fc + 1);
  fs = u32 (x.fs + u32 size);
  fmax = if ltb x.fmax (u32 size) then u32 size else x.fmax;
}

unfoldable pub walk_pool : List (ℕ × Bool) → PoolUse → PoolUse
walk_pool [] x = x
walk_pool ((size, used) ∷ blocks) x = walk_pool blocks (count_block size used x)

unfoldable pub no_blocks : PoolUse
no_blocks = record { uc = 0; us = 0; fc = 0; fs = 0; fmax = 0 }

-- The sample that is taken at `now`, if one is, and the time of the last; the walk is over the
-- blocks of the pool, where there is one.
unfoldable pub pool_soak_sample : ℕ → ℕ → ℕ → Option (List (ℕ × Bool)) → ℕ × Option (Option PoolUse)
pool_soak_sample period last_ms now pool =
    if not (last_ms == 0) && ltb (u32 (now + 2 ^ 32 - last_ms)) period
    then (last_ms, none)
    else elim pool [
      | none ↦ (now, some none)
      | some blocks ↦ (now, some (some (walk_pool blocks no_blocks)))
    ]
