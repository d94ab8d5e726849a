-- ===== src/Lcd/Area.antt =====
-- What the filling calls draw: the area that they paint, and when their loops stop.
use thicket_firmware.Base.{
  ℕ, zero, suc, ◌+◌, ◌*◌, ◌%◌, ◌≤◌, ◌<◌, ◌≡◌, refl, arith, Bool, true, false, ◌&&◌, ◌||◌, not, none,
  some, ltb, leb, ◌==◌, if◌then◌else◌, Bool-cases, Option-cases, inl, inr, u16, get_or,
}
use thicket_firmware.Base.Bits.{holds_below, both_below, both_below_sound, bit_and_three}
use thicket_firmware.Lcd.SharpLcd.{SharpLcd, set_pixel, get_pixel}
use thicket_firmware.Lcd.Pixels.{IsStored, get_pixel-set_pixel}
use thicket_firmware.Lcd.Draw.{Draws, Draws-trans, Draws-IsStored}
use thicket_firmware.Lcd.Fill.{
  bayer4, hline_loop, draw_hline, rect_loop, fill_rect, dither_on, dither_row, dither_loop,
  fill_dither,
}

-- `t` is `s` with the pixels of the panel that lie in `area` set to `black`.
pub record IsPainted (area : ℕ → ℕ → Bool) (black : Bool) (s t : SharpLcd) : Type 0 where
  pub drawn : Draws s t
  pub seen :
      (u v : ℕ)
      → u < 400
      → v < 240
      → get_pixel u v t ≡ (if area u v then black else get_pixel u v s)

abbrev pub rect : ℕ → ℕ → ℕ → ℕ → ℕ → ℕ → Bool
rect x y right bottom u v = leb x u && ltb u right && leb y v && ltb v bottom

pub IsPainted-none :
    (area : ℕ → ℕ → Bool) (black : Bool) (s : SharpLcd)
    → ((u v : ℕ) → u < 400 → v < 240 → area u v ≡ false)
    → IsPainted area black s s
IsPainted-none area black s empty = record {
  drawn = Draws.still;
  seen = λ u v hu hv. rw (empty u v hu hv) refl;
}

pub IsPainted-pixel :
    (x y : ℕ) (black : Bool) (s : SharpLcd)
    → IsStored s
    → IsPainted (λ u v. u == x && v == y) black s (set_pixel x y black s)
IsPainted-pixel x y black s ok = record {
  drawn = Draws.ink x y black Draws.still;
  seen = λ u v hu hv. ground (arith, get_pixel-set_pixel x y u v black s ok);
}

-- Two areas, one after the other.
pub IsPainted-both :
    (a b c : ℕ → ℕ → Bool) (black : Bool) {s t r : SharpLcd}
    → ((u v : ℕ) → u < 400 → v < 240 → c u v ≡ a u v || b u v)
    → IsPainted a black s t
    → IsPainted b black t r
    → IsPainted c black s r
IsPainted-both a b c black {s} {t} {r} split first second = record {
  drawn = Draws-trans first.drawn second.drawn;
  seen = λ u v hu hv. ground (arith, split u v hu hv, first.seen u v hu hv, second.seen u v hu hv);
}

hline_loop-some :
    (fuel xx end y : ℕ) (black : Bool) (s : SharpLcd)
    → IsStored s
    → xx ≤ end
    → end < xx + fuel
    → end ≤ 65535
    → (t : SharpLcd) × (hline_loop fuel xx end y black s ≡ some t)
      × IsPainted (rect xx y end (y + 1)) black s t
unfolding hline_loop
hline_loop-some zero xx end y black s ok low h small = ground arith
hline_loop-some (suc fuel) xx end y black s ok low h small = elim (Bool-cases (ltb xx end)) [
  | inr done ↦
      (s, ground arith, IsPainted-none (rect xx y end (y + 1)) black s (λ u v hu hv. ground arith))
  | inl more ↦
      let first = IsPainted-pixel xx y black s ok in
      let rest =
        hline_loop-some fuel (xx + 1) end y black (set_pixel xx y black s)
          (Draws-IsStored ok first.drawn) (ground arith) (omega arith) small in
      let next : u16 (xx + 1) ≡ xx + 1 = ground arith in
      (
        rest.0,
        rw (more, next) rest.1,
        IsPainted-both _ _ (rect xx y end (y + 1)) black (λ u v hu hv. ground arith) first rest.2,
      )
]

rect_loop-some :
    (fuel inner yy end x w : ℕ) (black : Bool) (s : SharpLcd)
    → IsStored s
    → yy ≤ end
    → end < yy + fuel
    → end ≤ 65535
    → w < inner
    → x + w ≤ 65535
    → (t : SharpLcd) × (rect_loop fuel inner yy end x w black s ≡ some t)
      × IsPainted (rect x yy (x + w) end) black s t
unfolding rect_loop
rect_loop-some zero inner yy end x w black s ok low h small wide right = ground arith
rect_loop-some (suc fuel) inner yy end x w black s ok low h small wide right =
    elim (Bool-cases (ltb yy end)) [
      | inr done ↦ (
        s,
        ground arith,
        IsPainted-none (rect x yy (x + w) end) black s (λ u v hu hv. ground arith),
      )
      | inl more ↦
          let row =
            hline_loop-some inner x (x + w) yy black s ok (omega arith) (omega arith) right in
          let rest =
            rect_loop-some fuel inner (yy + 1) end x w black row.0 (Draws-IsStored ok row.2.drawn)
              (ground arith) (omega arith) small wide right in
          let next : u16 (yy + 1) ≡ yy + 1 = ground arith in
          (
            rest.0,
            rw (more, row.1, next) rest.1,
            IsPainted-both _ _ (rect x yy (x + w) end) black (λ u v hu hv. ground arith) row.2
                rest.2,
          )
    ]

-- Over a framebuffer of bytes, a rectangle whose right and bottom edges fit 16 bits is filled:
-- the loops stop, within one round more than it has rows and columns, exactly the pixels of the
-- rectangle on the panel get the colour, and every other pixel keeps its own.
pub fill_rect-IsPainted :
    (fuel x y w h : ℕ) (black : Bool) (s : SharpLcd)
    → IsStored s
    → x + w ≤ 65535
    → y + h ≤ 65535
    → w < fuel
    → h < fuel
    → (t : SharpLcd) × (fill_rect fuel x y w h black s ≡ some t)
      × IsPainted (rect x y (x + w) (y + h)) black s t
unfolding fill_rect
fill_rect-IsPainted fuel x y w h black s ok right bottom wide high =
    rect_loop-some fuel fuel y (y + h) x w black s ok (omega arith) (omega arith) bottom wide right

-- Over a framebuffer of bytes, a horizontal line whose right end fits 16 bits is finished within
-- one round more than it has columns; exactly its pixels on the panel get the colour, and every
-- other pixel keeps its own.
pub draw_hline-IsPainted :
    (fuel x y w : ℕ) (black : Bool) (s : SharpLcd)
    → IsStored s
    → x + w ≤ 65535
    → w < fuel
    → (t : SharpLcd) × (draw_hline fuel x y w black s ≡ some t)
      × IsPainted (rect x y (x + w) (y + 1)) black s t
unfolding draw_hline
draw_hline-IsPainted fuel x y w black s ok right wide =
    hline_loop-some fuel x (x + w) y black s ok (omega arith) (omega arith) right

rect_loop-none :
    (fuel inner yy end x w : ℕ) (black : Bool) (s : SharpLcd)
    → yy ≤ 65535
    → 65535 < end
    → rect_loop fuel inner yy end x w black s ≡ none
unfolding rect_loop
rect_loop-none zero inner yy end x w black s low high = refl
rect_loop-none (suc fuel) inner yy end x w black s low high =
    elim (Option-cases (hline_loop inner x (x + w) yy black s)) [
      | inl e ↦ ground arith
      | inr (t, e) ↦ ground (arith, rect_loop-none fuel inner (u16 (yy + 1)) end x w black t)
    ]

-- A rectangle whose bottom edge does not fit 16 bits is never finished: the row counter wraps
-- before it reaches the edge, so no number of rounds is enough.
pub fill_rect-none :
    (fuel x y w h : ℕ) (black : Bool) (s : SharpLcd)
    → y ≤ 65535
    → 65535 < y + h
    → fill_rect fuel x y w h black s ≡ none
unfolding fill_rect
fill_rect-none fuel x y w h black s low high =
    rect_loop-none fuel fuel y (y + h) x w black s low high

abbrev pub dithered : ℕ → ℕ → ℕ → ℕ → ℕ → ℕ → ℕ → Bool
dithered x y right bottom level u v = rect x y right bottom u v && dither_on u v level

IsPainted-dot :
    (x y level : ℕ) (s : SharpLcd)
    → IsStored s
    → IsPainted
        (λ u v. u == x && v == y && dither_on u v level)
        true
        s
        (if dither_on x y level then set_pixel x y true s else s)
IsPainted-dot x y level s ok = elim (Bool-cases (dither_on x y level)) [
  | inl on ↦ rw on (
      IsPainted-both _ (λ u v. false) _ true (λ u v hu hv. ground (arith, on))
        (IsPainted-pixel x y true s ok) (IsPainted-none _ true _ (λ u v hu hv. refl)))
  | inr off ↦ rw off (IsPainted-none _ true s (λ u v hu hv. ground (arith, off)))
]

dither_row-some :
    (fuel xx end y level : ℕ) (s : SharpLcd)
    → IsStored s
    → 0 < fuel
    → 400 < xx + fuel
    → (t : SharpLcd) × (dither_row fuel xx end y level s ≡ some t)
      × IsPainted (dithered xx y end (y + 1) level) true s t
unfolding dither_row
dither_row-some zero xx end y level s ok some_fuel h = ground arith
dither_row-some (suc fuel) xx end y level s ok some_fuel h =
    elim (Bool-cases (ltb xx end && ltb xx 400)) [
      | inr done ↦ (s, ground arith, IsPainted-none _ true s (λ u v hu hv. ground arith))
      | inl more ↦
          let first = IsPainted-dot xx y level s ok in
          let rest =
            dither_row-some fuel (xx + 1) end y level _ (Draws-IsStored ok first.drawn)
              (ground arith) (omega arith) in
          let next : u16 (xx + 1) ≡ xx + 1 = ground arith in
          (
            rest.0,
            rw (more, next) rest.1,
            IsPainted-both _ _ _ true (λ u v hu hv. ground arith) first rest.2,
          )
    ]

dither_loop-some :
    (fuel inner yy end x w level : ℕ) (s : SharpLcd)
    → IsStored s
    → 0 < fuel
    → 240 < yy + fuel
    → 400 < inner
    → (t : SharpLcd) × (dither_loop fuel inner yy end x w level s ≡ some t)
      × IsPainted (dithered x yy (x + w) end level) true s t
unfolding dither_loop
dither_loop-some zero inner yy end x w level s ok some_fuel h wide = ground arith
dither_loop-some (suc fuel) inner yy end x w level s ok some_fuel h wide =
    elim (Bool-cases (ltb yy end && ltb yy 240)) [
      | inr done ↦ (s, ground arith, IsPainted-none _ true s (λ u v hu hv. ground arith))
      | inl more ↦
          let row = dither_row-some inner x (x + w) yy level s ok (omega arith) (omega arith) in
          let rest =
            dither_loop-some fuel inner (yy + 1) end x w level row.0 (Draws-IsStored ok row.2.drawn)
              (ground arith) (omega arith) wide in
          let next : u16 (yy + 1) ≡ yy + 1 = ground arith in
          (
            rest.0,
            rw (more, row.1, next) rest.1,
            IsPainted-both _ _ _ true (λ u v hu hv. ground arith) row.2 rest.2,
          )
    ]

dither_table : both_below 4 4 (λ x y. not (leb 249 (get_or bayer4 (y * 4 + x) 0))) ≡ true
unfolding holds_below
dither_table = refl

-- From level 249 on no position is dithered.
dither_on-249 : (x y level : ℕ) → 249 ≤ level → dither_on x y level ≡ false
unfolding dither_on
dither_on-249 x y level h = ground (
  arith,
  bit_and_three x,
  bit_and_three y,
  both_below_sound 4 4 (λ x y. not (leb 249 (get_or bayer4 (y * 4 + x) 0))) (x % 4) (y % 4)
      dither_table,
)

-- Over a framebuffer of bytes, a dithered rectangle of any position and size is finished within
-- 401 rounds of each loop, and blackens exactly the pixels of the rectangle on the panel where
-- the level is at most the entry of the matrix; every other pixel keeps its colour.
pub fill_dither-IsPainted :
    (fuel x y w h level : ℕ) (s : SharpLcd)
    → IsStored s
    → 400 < fuel
    → (t : SharpLcd) × (fill_dither fuel x y w h level s ≡ some t)
      × IsPainted (dithered x y (x + w) (y + h) level) true s t
unfolding fill_dither
fill_dither-IsPainted fuel x y w h level s ok enough = elim (Bool-cases (leb 249 level)) [
  | inl faint ↦ (
    s,
    ground arith,
    IsPainted-none _ true s (λ u v hu hv. ground (arith, dither_on-249 u v level)),
  )
  | inr inked ↦
      let all =
        dither_loop-some fuel fuel y (y + h) x w level s ok (omega arith) (omega arith) enough in
      (all.0, rw inked all.1, all.2)
]
