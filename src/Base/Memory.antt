-- ===== src/Base/Memory.antt =====
-- A byte array as a function of its index, with the C library's block operations.
use Prim.Native.Nat.{ℕ, zero, suc, ◌+◌, ◌-◌, ◌<◌}
use mathlib.Core.Path.{◌≡◌, refl, ap}
use mathlib.Core.Bool.{◌&&◌}
use mathlib.Core.List.{List, [], ◌∷◌}
use native.Mathlib.Omega.{arith}
use thicket_firmware.Base.Tests.{ltb, leb, ◌==◌, if◌then◌else◌}
use thicket_firmware.Base.Lists.{length, get_or}
use thicket_firmware.Base.Words.{IsByte}

abbrev pub Memory : Type 0
Memory = ℕ → ℕ

abbrev pub store : Memory → ℕ → ℕ → Memory
store m i v j = if i == j then v else m j

-- `memset` and `memcpy` to the address `start`.
abbrev pub memset : Memory → ℕ → ℕ → Memory
memset m v n j = if ltb j n then v else m j

abbrev pub memcpy : Memory → ℕ → List ℕ → Memory
memcpy m start bytes j =
    if leb start j && ltb j (start + length bytes) then get_or bytes (j - start) 0 else m j

-- The `n` bytes from `start` on.
unfoldable pub slice : Memory → ℕ → ℕ → List ℕ
slice m start zero = []
slice m start (suc n) = m start ∷ slice m (start + 1) n

pub length-slice : (m : Memory) (start n : ℕ) → length (slice m start n) ≡ n
unfolding slice
length-slice m start zero = refl
length-slice m start (suc n) = ap suc (length-slice m (start + 1) n)

pub get_or-slice :
    (m : Memory) (start n k : ℕ) → k < n → get_or (slice m start n) k 0 ≡ m (start + k)
unfolding slice
get_or-slice m start zero k h = absurd (omega arith)
get_or-slice m start (suc n) zero h = ap m (omega arith)
get_or-slice m start (suc n) (suc k) h = ground (arith, get_or-slice m (start + 1) n k)

abbrev pub AllBytes : Memory → Type 0
AllBytes m = (i : ℕ) → IsByte (m i)
