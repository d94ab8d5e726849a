-- ===== src/Lcd/Dirty.antt =====
-- The dirty set as a set of lines: marking one, clearing and filling the set, counting it.
use thicket_firmware.Base.{
  ℕ, zero, suc, ◌+◌, ◌/◌, ◌%◌, ◌≤◌, ◌<◌, ◌≡◌, refl, arith, true, false, ◌||◌, ◌&&◌, same, same-eq,
  ltb, ◌==◌, Bool-cases, inl, inr,
}
use thicket_firmware.Base.Bits.{
  holds_below, holds_below_sound, three_below, three_below_sound, bit_and_seven,
}
use thicket_firmware.Base.Memory.{AllBytes, memset}
use thicket_firmware.Lcd.SharpLcd.{
  SharpLcd, mark_dirty, is_dirty, with_bit, has_bit, dirty_from, dirty_bytes,
}

-- Setting one bit of a byte sets that bit alone.
bits_table :
    three_below 256 8 8
      (λ b k j. ltb (with_bit b k) 256 && same (has_bit (with_bit b k) j) (k == j || has_bit b j))
    ≡ true
unfolding holds_below with_bit has_bit
bits_table = refl

with_bit_lem :
    (b k j : ℕ)
    → b < 256
    → k < 8
    → j < 8
    → (with_bit b k < 256) × (has_bit (with_bit b k) j ≡ (k == j) || has_bit b j)
with_bit_lem b k j hb hk hj = ground (
  arith,
  three_below_sound 256 8 8
      (λ b k j. ltb (with_bit b k) 256 && same (has_bit (with_bit b k) j) (k == j || has_bit b j)) b
      k j bits_table,
  same-eq (has_bit (with_bit b k) j) (k == j || has_bit b j),
)

-- Marking a line makes that line dirty and changes no other.
pub is_dirty-mark_dirty :
    (y z : ℕ) (s : SharpLcd)
    → AllBytes s.dirty
    → is_dirty z (mark_dirty y s) ≡ (y == z) || is_dirty z s
unfolding is_dirty mark_dirty
is_dirty-mark_dirty y z s bytes = ground (
  arith,
  bytes (y / 8),
  bit_and_seven y,
  bit_and_seven z,
  with_bit_lem (s.dirty (y / 8)) (y % 8) (z % 8),
)

pub mark_dirty-bytes : (y : ℕ) (s : SharpLcd) → AllBytes s.dirty → AllBytes (mark_dirty y s).dirty
unfolding mark_dirty with_bit
mark_dirty-bytes y s bytes i = ground (arith, bytes i)

zeros_table : holds_below 8 (λ j. same (has_bit 0 j) false) ≡ true
unfolding holds_below has_bit
zeros_table = refl

zero_bits : (j : ℕ) → j < 8 → has_bit 0 j ≡ false
zero_bits j h =
    same-eq (has_bit 0 j) false
      (holds_below_sound 8 (λ j. same (has_bit 0 j) false) j zeros_table h)

-- What `memset` makes of the set: every line of the panel clean, or every line dirty.
pub is_dirty-cleared :
    (z : ℕ) (s : SharpLcd)
    → z < 240
    → is_dirty z (record s { dirty = memset s.dirty 0 dirty_bytes }) ≡ false
unfolding is_dirty
is_dirty-cleared z s h = ground (arith, bit_and_seven z, zero_bits (z % 8))

ones_table : holds_below 8 (λ j. has_bit 0xFF j) ≡ true
unfolding holds_below has_bit
ones_table = refl

pub is_dirty-filled :
    (z : ℕ) (s : SharpLcd)
    → z < 240
    → is_dirty z (record s { dirty = memset s.dirty 0xFF dirty_bytes }) ≡ true
unfolding is_dirty
is_dirty-filled z s h =
    ground (arith, bit_and_seven z, holds_below_sound 8 (λ j. has_bit 0xFF j) (z % 8) ones_table)

-- A count of dirty lines that is zero means that none is dirty.
pub dirty_from-zero :
    (left y z : ℕ) (s : SharpLcd)
    → dirty_from left y s ≡ 0
    → y ≤ z
    → z < y + left
    → is_dirty z s ≡ false
unfolding dirty_from
dirty_from-zero zero y z s e lo hi = absurd (omega arith)
dirty_from-zero (suc left) y z s e lo hi = elim (Bool-cases (y == z)) [
  | inl here ↦ ground arith
  | inr later ↦ ground (arith, dirty_from-zero left (y + 1) z s)
]

pub dirty_from-le : (left y : ℕ) (s : SharpLcd) → dirty_from left y s ≤ left
unfolding dirty_from
dirty_from-le zero y s = omega arith
dirty_from-le (suc left) y s = ground (arith, dirty_from-le left (y + 1) s)
