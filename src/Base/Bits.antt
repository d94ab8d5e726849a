-- ===== src/Base/Bits.antt =====
-- Facts about the bit operations at variables: by table over a byte, and from the lowest digit
-- at every width.
use Prim.Native.Nat.{ℕ, zero, suc, ◌+◌, ◌-◌, ◌*◌, ◌/◌, ◌%◌, ◌^◌, ◌≤◌, ◌<◌, min, max, differ}
use Prim.Native.Nat.{
  bit_and, bit_or, bit_xor, digits, bitwise, bit_and-bitwise, bit_or-bitwise, bit_xor-bitwise,
}
use mathlib.Core.Path.{◌≡◌, refl, sym, ap, ◌∙◌}
use mathlib.Core.Bool.{Bool, true, ◌&&◌}
use native.Mathlib.Omega.{arith}
use thicket_firmware.Base.Tests.{◌==◌, ==_iff, Bool-cases}
use mathlib.Core.Logic.{inl, inr}

-- A test that every number below a bound passes.
unfoldable pub holds_below : ℕ → (ℕ → Bool) → Bool
holds_below zero test = true
holds_below (suc bound) test = holds_below bound test && test bound

pub holds_below_sound :
    (bound : ℕ) (test : ℕ → Bool) (k : ℕ)
    → holds_below bound test ≡ true
    → k < bound
    → test k ≡ true
unfolding holds_below
holds_below_sound zero test k all small = ground arith
holds_below_sound (suc bound) test k all small = elim (Bool-cases (k == bound)) [
  | inl last ↦ ground (arith, all)
  | inr earlier ↦ ground (arith, holds_below_sound bound test k)
]

-- The test for pairs.
abbrev pub both_below : ℕ → ℕ → (ℕ → ℕ → Bool) → Bool
both_below n m p = holds_below n (λ x. holds_below m (p x))

pub both_below_sound :
    (n m : ℕ) (p : ℕ → ℕ → Bool) (x y : ℕ) → both_below n m p ≡ true → x < n → y < m → p x y ≡ true
both_below_sound n m p x y h a b =
    holds_below_sound m (p x) y (holds_below_sound n (λ k. holds_below m (p k)) x h a) b

-- An equation between two functions of a byte, by evaluation.
pub byte_table :
    (n : ℕ) (f g : ℕ → ℕ) (x : ℕ) → holds_below n (λ k. f k == g k) ≡ true → x < n → f x ≡ g x
byte_table n f g x h a = (==_iff (f x) (g x)).0 (holds_below_sound n (λ k. f k == g k) x h a)

pub bit_and_7f : (x : ℕ) → x < 256 → bit_and x 0x7F ≡ x % 128
unfolding holds_below
bit_and_7f x h = byte_table 256 (λ k. bit_and k 0x7F) (λ k. k % 128) x refl h

pub bit_and_0f : (x : ℕ) → x < 256 → bit_and x 0x0F ≡ x % 16
unfolding holds_below
bit_and_0f x h = byte_table 256 (λ k. bit_and k 0x0F) (λ k. k % 16) x refl h

pub bit_and_80 : (x : ℕ) → x < 256 → bit_and x 0x80 ≡ x / 128 * 128
unfolding holds_below
bit_and_80 x h = byte_table 256 (λ k. bit_and k 0x80) (λ k. k / 128 * 128) x refl h

-- The native operations recurse on the digits of the first number, with that number as a count of
-- rounds. Spare rounds do not matter.
module _ (rest : ℕ → ℕ) (digit : ℕ → ℕ → ℕ) where
  spent : (rounds b : ℕ) → digits rest digit rounds 0 b ≡ rest b
  spent zero b = refl
  spent (suc rounds) b = refl

  spare :
      (a rounds more b : ℕ)
      → a ≤ rounds
      → digits rest digit (rounds + more) a b ≡ digits rest digit rounds a b
  spare zero rounds more b h = spent (rounds + more) b ∙ sym (spent rounds b)
  spare (suc a) zero more b h = absurd (omega arith)
  spare (suc a) (suc rounds) more b h =
      let half = suc a / 2 in
      let one_more : suc rounds + more ≡ suc (rounds + more) = omega arith in
      rw one_more (
        ap (λ high. high * 2 + digit (suc a % 2) (b % 2))
          (spare half rounds more (b / 2) (omega arith)))

  lowest_digit :
      (a b : ℕ)
      → bitwise rest digit (suc a) b
        ≡ bitwise rest digit (suc a / 2) (b / 2) * 2 + digit (suc a % 2) (b % 2)
  lowest_digit a b =
      let half = suc a / 2 in
      let count : half + (a - half) ≡ a = omega arith in
      ap (λ high. high * 2 + digit (suc a % 2) (b % 2))
        (ap (λ rounds. digits rest digit rounds half (b / 2)) (sym count)
          ∙ spare half half (a - half) (b / 2) (omega arith))

  -- What is left once the first number has run out has to split into digits as well.
  digit_law :
      ((b : ℕ) → rest b ≡ rest (b / 2) * 2 + digit 0 (b % 2))
      → (a b : ℕ)
      → bitwise rest digit a b ≡ bitwise rest digit (a / 2) (b / 2) * 2 + digit (a % 2) (b % 2)
  digit_law splits zero b = splits b
  digit_law splits (suc a) b = lowest_digit a b

-- A number is its half and its lowest digit.
halved : (b : ℕ) → b ≡ b / 2 * 2 + b % 2
halved b = omega arith

pub bit_or_step : (a b : ℕ) → bit_or a b ≡ bit_or (a / 2) (b / 2) * 2 + max (a % 2) (b % 2)
bit_or_step a b = simp bit_or-bitwise (digit_law (λ y. y) max (λ y. omega (arith, halved y)) a b)

pub bit_xor_step : (a b : ℕ) → bit_xor a b ≡ bit_xor (a / 2) (b / 2) * 2 + differ (a % 2) (b % 2)
bit_xor_step a b = simp bit_xor-bitwise (digit_law (λ y. y) differ halved a b)

or_nothing : (b : ℕ) → bit_or 0 b ≡ b
or_nothing b = bit_or-bitwise 0 b

xor_nothing : (b : ℕ) → bit_xor 0 b ≡ b
xor_nothing b = bit_xor-bitwise 0 b

bit_or-zero_fuel : (n a b : ℕ) → a ≤ n → bit_or a b ≡ 0 → (a ≡ 0) × (b ≡ 0)
bit_or-zero_fuel n zero b h e = omega (arith, or_nothing b)
bit_or-zero_fuel zero (suc a) b h e = absurd (omega arith)
bit_or-zero_fuel (suc n) (suc a) b h e =
    let low : max (suc a % 2) (b % 2) ≡ 0 = omega (arith, bit_or_step (suc a) b) in
    let high : bit_or (suc a / 2) (b / 2) ≡ 0 = omega (arith, bit_or_step (suc a) b) in
    let rest = bit_or-zero_fuel n (suc a / 2) (b / 2) (omega arith) high in omega arith

-- A disjunction is zero only of zeros.
pub bit_or-eq-zero : (a b : ℕ) → bit_or a b ≡ 0 → (a ≡ 0) × (b ≡ 0)
bit_or-eq-zero a b = bit_or-zero_fuel a a b (omega arith)

bit_or-zero_right : (n a : ℕ) → a ≤ n → bit_or a 0 ≡ a
bit_or-zero_right n zero h = or_nothing 0
bit_or-zero_right zero (suc a) h = absurd (omega arith)
bit_or-zero_right (suc n) (suc a) h =
    omega (arith, bit_or_step (suc a) 0, bit_or-zero_right n (suc a / 2) (omega arith))

pub bit_or-zero : (a : ℕ) → bit_or a 0 ≡ a
bit_or-zero a = bit_or-zero_right a a (omega arith)

doubled : ℕ → ℕ → ℕ
doubled zero a = a
doubled (suc k) a = doubled k a * 2

-- A doubled number leaves the lowest bit to the other.
bit_or-double : (a b : ℕ) → bit_or (a * 2) b ≡ bit_or a (b / 2) * 2 + b % 2
bit_or-double a b =
    let half : a * 2 / 2 ≡ a = omega arith in
    bit_or_step (a * 2) b
    ∙ ap (λ t. bit_or t (b / 2) * 2 + max (a * 2 % 2) (b % 2)) half
    ∙ omega arith

or_below : (k a b : ℕ) → b < 2 ^ k → bit_or (doubled k a) b ≡ doubled k a + b
unfolding doubled
or_below zero a b h = ap (λ t. bit_or a t) {y = 0} (omega arith) ∙ bit_or-zero a ∙ omega arith
or_below (suc k) a b h =
    omega (arith, bit_or-double (doubled k a) b, or_below k a (b / 2) (omega arith))

-- Six bits appended to a number.
pub bit_or-append_six : (a b : ℕ) → b < 64 → bit_or (a * 2 ^ 6) b ≡ a * 64 + b
unfolding doubled
bit_or-append_six a b h =
    let shape : doubled 6 a ≡ a * 64 = omega arith in
    ap (λ t. bit_or t b) (sym shape) ∙ or_below 6 a b h ∙ omega arith

bit_xor-zero_fuel : (n a b : ℕ) → a ≤ n → bit_xor a b ≡ 0 → a ≡ b
bit_xor-zero_fuel n zero b h e = omega (arith, xor_nothing b)
bit_xor-zero_fuel zero (suc a) b h e = absurd (omega arith)
bit_xor-zero_fuel (suc n) (suc a) b h e =
    let low : differ (suc a % 2) (b % 2) ≡ 0 = omega (arith, bit_xor_step (suc a) b) in
    let high : bit_xor (suc a / 2) (b / 2) ≡ 0 = omega (arith, bit_xor_step (suc a) b) in
    let rest = bit_xor-zero_fuel n (suc a / 2) (b / 2) (omega arith) high in ground arith

-- An exclusive or is zero only of equals.
pub bit_xor-eq-zero : (a b : ℕ) → bit_xor a b ≡ 0 → a ≡ b
bit_xor-eq-zero a b = bit_xor-zero_fuel a a b (omega arith)

differ_self : (x : ℕ) → differ x x ≡ 0
differ_self zero = refl
differ_self (suc x) = differ_self x

bit_xor_self_fuel : (n a : ℕ) → a ≤ n → bit_xor a a ≡ 0
bit_xor_self_fuel n zero h = xor_nothing 0
bit_xor_self_fuel zero (suc a) h = absurd (omega arith)
bit_xor_self_fuel (suc n) (suc a) h = ground (
  arith,
  bit_xor_step (suc a) (suc a),
  differ_self (suc a % 2),
  bit_xor_self_fuel n (suc a / 2) (omega arith),
)

pub bit_xor_self : (a : ℕ) → bit_xor a a ≡ 0
bit_xor_self a = bit_xor_self_fuel a a (omega arith)

pub and_nothing : (b : ℕ) → bit_and 0 b ≡ 0
and_nothing b = bit_and-bitwise 0 b

pub bit_and_step : (a b : ℕ) → bit_and a b ≡ bit_and (a / 2) (b / 2) * 2 + min (a % 2) (b % 2)
bit_and_step a b = simp bit_and-bitwise (digit_law (λ y. 0) min (λ y. omega arith) a b)

bit_and-le_fuel : (n a b : ℕ) → a ≤ n → bit_and a b ≤ b
bit_and-le_fuel n zero b h = omega (arith, and_nothing b)
bit_and-le_fuel zero (suc a) b h = absurd (omega arith)
bit_and-le_fuel (suc n) (suc a) b h =
    omega (arith, bit_and_step (suc a) b, bit_and-le_fuel n (suc a / 2) (b / 2) (omega arith))

-- A masked value is at most the mask.
pub bit_and-le : (a b : ℕ) → bit_and a b ≤ b
bit_and-le a b = bit_and-le_fuel a a b (omega arith)

bit_and-zero : (a : ℕ) → bit_and a 0 ≡ 0
bit_and-zero a = omega (arith, bit_and-le a 0)

pub bit_and-one : (a : ℕ) → bit_and a 1 ≡ a % 2
bit_and-one a = omega (arith, bit_and_step a 1, bit_and-zero (a / 2))

pub bit_and_three : (a : ℕ) → bit_and a 3 ≡ a % 4
bit_and_three a = omega (arith, bit_and_step a 3, bit_and-one (a / 2))

pub bit_and_seven : (a : ℕ) → bit_and a 7 ≡ a % 8
bit_and_seven a = omega (arith, bit_and_step a 7, bit_and_three (a / 2))

bit_and_fifteen : (a : ℕ) → bit_and a 15 ≡ a % 16
bit_and_fifteen a = omega (arith, bit_and_step a 15, bit_and_seven (a / 2))

bit_and_31 : (a : ℕ) → bit_and a 31 ≡ a % 32
bit_and_31 a = omega (arith, bit_and_step a 31, bit_and_fifteen (a / 2))

pub bit_and_63 : (a : ℕ) → bit_and a 63 ≡ a % 64
bit_and_63 a = omega (arith, bit_and_step a 63, bit_and_31 (a / 2))

-- The test for triples.
abbrev pub three_below : ℕ → ℕ → ℕ → (ℕ → ℕ → ℕ → Bool) → Bool
three_below n m k p = holds_below n (λ x. both_below m k (p x))

pub three_below_sound :
    (n m k : ℕ) (p : ℕ → ℕ → ℕ → Bool) (x y z : ℕ)
    → three_below n m k p ≡ true
    → x < n
    → y < m
    → z < k
    → p x y z ≡ true
three_below_sound n m k p x y z h a b c =
    both_below_sound m k (p x) y z (holds_below_sound n (λ t. both_below m k (p t)) x h a) b c
