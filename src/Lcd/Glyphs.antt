-- ===== src/Lcd/Glyphs.antt =====
-- What the text calls paint, pixel by pixel.
use thicket_firmware.Base.{
  ℕ, zero, suc, ◌+◌, ◌-◌, ◌≤◌, ◌≡◌, ap, refl, arith, Bool, true, false, not, ◌&&◌, List, ltb, leb,
  ◌==◌, if◌then◌else◌, Bool-cases, inl, inr, u16, ◌>>>◌, bit_and, get_or,
}
use thicket_firmware.Base.Bits.{and_nothing}
use thicket_firmware.Lcd.SharpLcd.{SharpLcd, set_pixel}
use thicket_firmware.Lcd.Pixels.{IsStored}
use thicket_firmware.Lcd.Draw.{Draws-IsStored}
use thicket_firmware.Lcd.Area.{IsPainted, IsPainted-none, IsPainted-pixel, IsPainted-both}
use thicket_firmware.Lcd.Text.{draw_row, draw_rows}

-- The columns `lo` to `lo + n - 1` of a row of bits drawn at `x`, `y`.
abbrev row_ink : ℕ → ℕ → ℕ → ℕ → ℕ → ℕ → ℕ → ℕ → Bool
row_ink lo n top bits x y u v =
    v == y && leb (x + lo) u && ltb u (x + lo + n) && not (bit_and bits (top >>> (u - x)) == 0)

-- The rows `lo` to `lo + n - 1` of a glyph drawn at `x`, `y`.
abbrev pub rows_ink : ℕ → ℕ → ℕ → ℕ → List ℕ → ℕ → ℕ → ℕ → ℕ → Bool
rows_ink lo n ink top g x y u v =
    leb (y + lo) v
    && ltb v (y + lo + n)
    && leb x u
    && ltb u (x + ink)
    && not (bit_and (get_or g (v - y) 0) (top >>> (u - x)) == 0)

IsPainted-if :
    (skip : Bool) (x y : ℕ) (black : Bool) (s : SharpLcd)
    → IsStored s
    → IsPainted
        (λ u v. u == x && v == y && not skip)
        black
        s
        (if skip then s else set_pixel x y black s)
IsPainted-if true x y black s ok = IsPainted-none _ black s (λ u v hu hv. ground arith)
IsPainted-if false x y black s ok =
    IsPainted-both _ (λ u v. false) _ black (λ u v hu hv. ground arith)
      (IsPainted-pixel x y black s ok) (IsPainted-none _ black _ (λ u v hu hv. refl))

draw_row-IsPainted :
    (left col top bits x y : ℕ) (black : Bool) (s : SharpLcd)
    → IsStored s
    → x + col + left ≤ 65536
    → IsPainted (row_ink col left top bits x y) black s (draw_row left col top bits x y black s)
unfolding draw_row
draw_row-IsPainted zero col top bits x y black s ok fits =
    IsPainted-none _ black s (λ u v hu hv. ground arith)
draw_row-IsPainted (suc left) col top bits x y black s ok fits =
    let skip = bit_and bits (top >>> col) == 0 in
    let first = IsPainted-if skip (x + col) y black s ok in
    let same_x : u16 (x + col) ≡ x + col = ground arith in
    let rest =
      draw_row-IsPainted left (col + 1) top bits x y black _ (Draws-IsStored ok first.drawn)
        (omega arith) in
    rw same_x (
      IsPainted-both _ _ (row_ink col (suc left) top bits x y) black
        (λ u v hu hv. elim (Bool-cases (u == x + col)) [
          | inl here ↦
              let column =
                ap (λ k. bit_and bits (top >>> k)) {x = u - x} {y = col} (ground arith) in
              ground (arith, column)
          | inr there ↦ ground arith
        ])
        first rest)

blank_row :
    (lo n top x y : ℕ) (black : Bool) (s : SharpLcd) → IsPainted (row_ink lo n top 0 x y) black s s
blank_row lo n top x y black s =
    IsPainted-none _ black s (λ u v hu hv. ground (arith, and_nothing (top >>> (u - x))))

IsPainted-bits :
    (ink top bits x y : ℕ) (black : Bool) (s : SharpLcd)
    → IsStored s
    → x + ink ≤ 65536
    → IsPainted
        (row_ink 0 ink top bits x y)
        black
        s
        (if bits == 0 then s else draw_row ink 0 top bits x y black s)
IsPainted-bits ink top zero x y black s ok fits = blank_row 0 ink top x y black s
IsPainted-bits ink top (suc bits) x y black s ok fits =
    let ink_there : (suc bits == 0) ≡ false = ground arith in
    rw ink_there (draw_row-IsPainted ink 0 top (suc bits) x y black s ok (omega arith))

pub draw_rows-IsPainted :
    (left row ink top : ℕ) (g : List ℕ) (x y : ℕ) (black : Bool) (s : SharpLcd)
    → IsStored s
    → x + ink ≤ 65536
    → y + row + left ≤ 65536
    → IsPainted (rows_ink row left ink top g x y) black s (draw_rows left row ink top g x y black s)
unfolding draw_rows
draw_rows-IsPainted zero row ink top g x y black s ok fits tall =
    IsPainted-none _ black s (λ u v hu hv. ground arith)
draw_rows-IsPainted (suc left) row ink top g x y black s ok fits tall =
    let first = IsPainted-bits ink top (get_or g row 0) x (y + row) black s ok fits in
    let same_y : u16 (y + row) ≡ y + row = ground arith in
    let rest =
      draw_rows-IsPainted left (row + 1) ink top g x y black _ (Draws-IsStored ok first.drawn) fits
        (omega arith) in
    rw same_y (
      IsPainted-both _ _ (rows_ink row (suc left) ink top g x y) black
        (λ u v hu hv. elim (Bool-cases (v == y + row)) [
          | inl here ↦
              let line = ap (λ k. get_or g k 0) {x = v - y} {y = row} (ground arith) in
              let bit = ap (λ b. bit_and b (top >>> (u - x))) line in ground (arith, bit)
          | inr there ↦ ground arith
        ])
        first rest)
