-- ===== src/Base/Decimal.antt =====
-- `printf` of integers: `%lu` of a 32-bit number, `%ld`, and what reads the digits back.
use thicket_firmware.Base.{
  ℕ, zero, suc, ◌+◌, ◌-◌, ◌*◌, ◌/◌, ◌%◌, ◌^◌, ◌≤◌, ◌<◌, ◌≡◌, refl, arith, Bool, ◌&&◌, List, [], ◌∷◌,
  ◌++◌, append_assoc, length, length-append, ltb, leb, if◌then◌else◌, ℤ, pos, negsuc, lt→ltb,
  Bool-cases, inl, inr,
}

-- The digits, by as many rounds as a number has digits at most.
unfoldable pub digits : ℕ → ℕ → List ℕ
digits zero n = []
digits (suc k) n =
    let rest = digits k (n / 10) in
    if ltb n 10 then (b'0' + n) ∷ [] else rest ++ (b'0' + n % 10) ∷ []

-- A number of 32 bits has ten digits at most.
unfoldable pub decimal : ℕ → List ℕ
decimal n = digits 10 n

unfoldable pub decimal_ℤ : ℤ → List ℕ
decimal_ℤ (pos n) = decimal n
decimal_ℤ (negsuc n) = b'-' ∷ decimal (n + 1)

unfoldable pub is_digit : ℕ → Bool
is_digit c = leb b'0' c && leb c b'9'

-- A number read up to the first byte that is no digit, and the text from there on.
unfoldable pub read_number : ℕ → List ℕ → ℕ × List ℕ
read_number acc [] = (acc, [])
read_number acc (c ∷ cs) =
    let rest = read_number (acc * 10 + (c - b'0')) cs in if is_digit c then rest else (acc, c ∷ cs)

tenth-lt : (n j : ℕ) → n < 10 ^ suc j → n / 10 < 10 ^ j
tenth-lt n j h = omega arith

-- A number below ten to the power `m` has at most `m` digits, and one at least.
pub length-digits : (k n j : ℕ) → n < 10 ^ suc j → length (digits k n) ≤ suc j
unfolding digits
length-digits zero n j h = omega arith
length-digits (suc k) n zero h = rw (lt→ltb n 10 (omega arith)) (omega arith)
length-digits (suc k) n (suc j) h = elim (Bool-cases (ltb n 10)) [
  | inl small ↦ rw small (omega arith)
  | inr big ↦ rw big (
      rw (length-append (digits k (n / 10)) ((b'0' + n % 10) ∷ []))
        (omega (arith, length-digits k (n / 10) j (tenth-lt n (suc j) h))))
]

-- Digits are read back, whatever follows them.
pub read_number-digits :
    (k n : ℕ) (rest : List ℕ) → n < 10 ^ k → read_number 0 (digits k n ++ rest) ≡ read_number n rest
unfolding digits read_number is_digit
read_number-digits zero n rest h = let e : n ≡ 0 = omega arith in rw e refl
read_number-digits (suc k) n rest h = elim (Bool-cases (ltb n 10)) [
  | inl small ↦ rw small (ground arith)
  | inr big ↦ rw big (
      rw append_assoc (
        rw (read_number-digits k (n / 10) ((b'0' + n % 10) ∷ rest) (tenth-lt n k h))
          (ground arith)))
]
