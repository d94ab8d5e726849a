-- ===== src/Render/Words.antt =====
-- Where the words of a run begin and end.
use thicket_firmware.Base.{
  ℕ, zero, suc, ◌+◌, ◌-◌, ◌*◌, ◌≤◌, ◌<◌, ◌≡◌, refl, arith, false, ltb, Bool-cases, inl, inr,
}
use native.Mathlib.Nat.{mul-le-mul_left, mul-le-mul_right}
use thicket_firmware.Base.Memory.{Memory}
use thicket_firmware.Render.Page.{seq_len, cells_from}
use thicket_firmware.Render.Run.{is_space, from, skip_spaces, word_end, word_start, word_stop}

pub seq_len-range : (c : ℕ) → (1 ≤ seq_len c) × (seq_len c ≤ 4)
unfolding seq_len
seq_len-range c = ground arith

skip_spaces_lem :
    (left : ℕ) (t : Memory) (n sp : ℕ)
    → sp ≤ n
    → n ≤ sp + left
    → let q = skip_spaces left t n sp in
      (sp ≤ q) × (q ≤ n) × (q < n → is_space (t q) ≡ false) × (is_space (t sp) ≡ false → q ≡ sp)
unfolding skip_spaces
skip_spaces_lem zero t n sp low enough = (omega arith, low, λ h. absurd (omega arith), λ _. refl)
skip_spaces_lem (suc left) t n sp low enough = elim (Bool-cases (ltb sp n)) [
  | inr ended ↦ rw ended (omega arith, low, λ h. ground (arith, ended), λ _. refl)
  | inl more ↦ elim (Bool-cases (is_space (t sp))) [
    | inr letter ↦ rw (more, letter) (omega arith, low, λ h. letter, λ _. refl)
    | inl space ↦
        let rest = skip_spaces_lem left t n (sp + 1) (ground (arith, more)) (omega arith) in
        rw (more, space) (omega (arith, rest.0), rest.1, rest.2, λ letter. ground (arith, letter))
  ]
]

word_end-le :
    (left : ℕ) (t : Memory) (n w : ℕ)
    → w ≤ n + 3
    → let q = word_end left t n w in (w ≤ q) × (q ≤ n + 3)
unfolding word_end
word_end-le zero t n w low = (omega arith, low)
word_end-le (suc left) t n w low = elim (Bool-cases (ltb w n)) [
  | inr ended ↦ rw ended (omega arith, low)
  | inl more ↦
      let rest =
        word_end-le left t n (w + seq_len (t w)) (ground (arith, more, (seq_len-range (t w)).1)) in
      elim (Bool-cases (is_space (t w))) [
        | inl space ↦ rw (more, space) (omega arith, low)
        | inr letter ↦ rw (more, letter) (omega (arith, rest.0), rest.1)
      ]
]

word_end-further :
    (left : ℕ) (t : Memory) (n w : ℕ)
    → w < n
    → 0 < left
    → is_space (t w) ≡ false
    → w < word_end left t n w
unfolding word_end
word_end-further zero t n w more rounds letter = absurd (omega arith)
word_end-further (suc left) t n w more rounds letter =
    let size = seq_len-range (t w) in
    let rest = word_end-le left t n (w + seq_len (t w)) (omega (arith, size)) in
    ground (arith, more, letter, rest, size)

-- A word of a run: it begins at its first letter, at once where there is no space, and ends at the
-- next space or the end of the run, which a glyph of four bytes can pass by three.
pub word-place :
    (t : Memory) (n i : ℕ)
    → i < n
    → let sp = word_start t n i in
      let w = word_stop t n i in
      (i ≤ sp)
      × (sp ≤ n)
      × (sp ≤ w)
      × (w ≤ n + 3)
      × (i < w)
      × (w < n → sp < w)
      × (is_space (t i) ≡ false → sp ≡ i)
word-place t n i more =
    let sp = word_start t n i in
    let (a, b, c, d) = skip_spaces_lem (n - i) t n i (omega arith) (omega arith) in
    let (e, f) = word_end-le (n - sp) t n sp (omega (arith, b)) in
    let further : sp < n → sp < word_stop t n i =
      λ h. word_end-further (n - sp) t n sp h (omega (arith, h)) (c h) in
    let later : i < word_stop t n i = grind (arith, further) in
    (a, b, e, f, later, λ h. further (omega (arith, h, e)), d)

pub cells_from-from :
    (left : ℕ) (t : Memory) (a n i : ℕ)
    → cells_from left (from t a) n i ≡ cells_from left t (a + n) (a + i)
unfolding cells_from
cells_from-from zero t a n i = refl
cells_from-from (suc left) t a n i =
    let rest = cells_from-from left t a n (i + seq_len (t (a + i))) in
    let shift : a + (i + seq_len (t (a + i))) ≡ (a + i) + seq_len (t (a + i)) = omega arith in
    ground (arith, rest, shift)

pub cells_from-le : (left : ℕ) (t : Memory) (n i : ℕ) → cells_from left t n i ≤ left
unfolding cells_from
cells_from-le zero t n i = omega arith
cells_from-le (suc left) t n i = ground (arith, cells_from-le left t n (i + seq_len (t i)))

pub cells_from-positive :
    (left : ℕ) (t : Memory) (n i : ℕ) → i < n → 0 < left → 0 < cells_from left t n i
unfolding cells_from
cells_from-positive zero t n i more rounds = absurd (omega arith)
cells_from-positive (suc left) t n i more rounds = ground (arith, more)

-- Products of bounded factors.
pub mul-le-mul : (a b c d : ℕ) → a ≤ b → c ≤ d → a * c ≤ b * d
mul-le-mul a b c d h k = grind (arith, mul-le-mul_right c h, mul-le-mul_left b k)
