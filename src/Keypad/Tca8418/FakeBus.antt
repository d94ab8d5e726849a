-- ===== src/Keypad/Tca8418/FakeBus.antt =====
-- test/test_tca8418/test_tca8418.cpp: the scripted bus of the driver's host tests. Each register
-- has a queue of bytes to read, consumed from its front, and every write is logged.
use thicket_firmware.Base.{
  ℕ, Bool, true, false, Option, none, some, List, [], ◌∷◌, ◌++◌, ◌==◌, if◌then◌else◌,
}

pub record FakeBus : Type 0 where
  pub reads : ℕ → List ℕ
  pub writes : List (ℕ × ℕ)
  pub fail_all : Bool

abbrev pub write_reg : ℕ → ℕ → FakeBus → Bool × FakeBus
write_reg reg value s =
    if s.fail_all then (false, s) else (true, record s { writes = s.writes ++ (reg, value) ∷ [] })

abbrev pub set_reads : FakeBus → ℕ → List ℕ → FakeBus
set_reads s reg q = record s { reads = λ r. if r == reg then q else s.reads r }

abbrev pub pop_read : FakeBus → ℕ → List ℕ → Option ℕ × FakeBus
pop_read s reg [] = (some 0, s)
pop_read s reg (v ∷ q) = (some v, set_reads s reg q)

abbrev pub read_reg : ℕ → FakeBus → Option ℕ × FakeBus
read_reg reg s = if s.fail_all then (none, s) else pop_read s reg (s.reads reg)
