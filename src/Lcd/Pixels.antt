-- ===== src/Lcd/Pixels.antt =====
-- The framebuffer as a picture: writing one pixel, and what it marks dirty.
use thicket_firmware.Base.{
  ℕ, ◌+◌, ◌*◌, ◌/◌, ◌%◌, ◌^◌, ◌<◌, ◌≡◌, refl, arith, Bool, true, false, ◌&&◌, ltb, ◌==◌,
  if◌then◌else◌, Bool-cases, inl, inr, u8, bit_and, same, same-eq, ap, ◌∙◌,
}
use thicket_firmware.Base.Bits.{holds_below, three_below, three_below_sound, bit_and_seven}
use thicket_firmware.Base.Memory.{Memory, AllBytes, store}
use thicket_firmware.Lcd.SharpLcd.{
  SharpLcd, set_pixel, get_pixel, inked, pixel_mask, pixel_index, is_dirty, mark_dirty, line_bytes,
}
use thicket_firmware.Lcd.Dirty.{is_dirty-mark_dirty, mark_dirty-bytes}

-- The mask of bit `k` from the left.
abbrev bit_mask : ℕ → ℕ
bit_mask k = u8 (128 / 2 ^ k)

abbrev inked_ok : Bool → ℕ → ℕ → ℕ → Bool
inked_ok black b k j =
    ltb (inked b (bit_mask k) black) 256
    && same (bit_and (inked b (bit_mask k) black) (bit_mask j) == 0)
        (if k == j then black else bit_and b (bit_mask j) == 0)

black_table : three_below 256 8 8 (inked_ok true) ≡ true
unfolding holds_below inked
black_table = refl

white_table : three_below 256 8 8 (inked_ok false) ≡ true
unfolding holds_below inked
white_table = refl

inked_table : (black : Bool) → three_below 256 8 8 (inked_ok black) ≡ true
inked_table true = black_table
inked_table false = white_table

-- Inking one bit of a byte sets that bit alone.
inked_lem :
    (black : Bool) (b k j : ℕ)
    → b < 256
    → k < 8
    → j < 8
    → (inked b (bit_mask k) black < 256)
      × ((bit_and (inked b (bit_mask k) black) (bit_mask j) == 0)
          ≡ (if k == j then black else bit_and b (bit_mask j) == 0))
inked_lem black b k j hb hk hj = ground (
  arith,
  three_below_sound 256 8 8 (inked_ok black) b k j (inked_table black) hb hk hj,
  same-eq (bit_and (inked b (bit_mask k) black) (bit_mask j) == 0)
      (if k == j then black else bit_and b (bit_mask j) == 0),
)

-- What the writes and the tables rely on: the memories hold bytes.
pub record IsStored (s : SharpLcd) : Type 0 where
  pub fb : AllBytes s.fb
  pub dirty : AllBytes s.dirty

fb-mark_dirty : (y : ℕ) (s : SharpLcd) → (mark_dirty y s).fb ≡ s.fb
unfolding mark_dirty
fb-mark_dirty y s = refl

-- The framebuffer after a write, whether or not the line is marked.
fb-set_pixel :
    (x y i : ℕ) (black : Bool) (s : SharpLcd)
    → x < 400
    → y < 240
    → (set_pixel x y black s).fb i
      ≡ (if pixel_index x y == i then inked (s.fb i) (pixel_mask x) black else s.fb i)
unfolding set_pixel mark_dirty
fb-set_pixel x y i black s hx hy = ground arith

pub set_pixel-outside :
    (x y : ℕ) (black : Bool) (s : SharpLcd)
    → (ltb x 400 && ltb y 240) ≡ false
    → set_pixel x y black s ≡ s
unfolding set_pixel
set_pixel-outside x y black s h = ground arith

-- Two pixels share a byte exactly if they share line and column of bytes.
index_iff :
    (x y u v : ℕ)
    → x < 400
    → u < 400
    → (pixel_index x y == pixel_index u v) ≡ (x / 8 == u / 8) && (y == v)
index_iff x y u v hx hu = ground arith

pixel_cases :
    (x y u v : ℕ) (black : Bool) (b : ℕ)
    → ((bit_and (inked b (bit_mask (x % 8)) black) (bit_mask (u % 8)) == 0)
        ≡ (if x % 8 == u % 8 then black else bit_and b (bit_mask (u % 8)) == 0))
    → (bit_and
          (if (x / 8 == u / 8) && (y == v) then inked b (bit_mask (x % 8)) black else b)
          (bit_mask (u % 8))
        == 0)
      ≡ (if u == x && v == y then black else bit_and b (bit_mask (u % 8)) == 0)
pixel_cases x y u v black b e = elim (Bool-cases ((x / 8 == u / 8) && (y == v))) [
  | inl byte ↦
      rw byte (e ∙ ap (λ t. if t then black else bit_and b (bit_mask (u % 8)) == 0) (ground arith))
  | inr other ↦
      rw other (
        ap (λ t. if t then black else bit_and b (bit_mask (u % 8)) == 0) {x = false} (ground arith))
]

pixel-set_pixel :
    (x y u v : ℕ) (black : Bool) (s : SharpLcd)
    → IsStored s
    → x < 400
    → y < 240
    → u < 400
    → (bit_and ((set_pixel x y black s).fb (pixel_index u v)) (pixel_mask u) == 0)
      ≡ (if u == x && v == y then black else bit_and (s.fb (pixel_index u v)) (pixel_mask u) == 0)
pixel-set_pixel x y u v black s ok hx hy hu =
    let b = s.fb (pixel_index u v) in
    let masked : pixel_mask x ≡ bit_mask (x % 8) = ap (λ k. u8 (128 / 2 ^ k)) (bit_and_seven x) in
    let shown : pixel_mask u ≡ bit_mask (u % 8) = ap (λ k. u8 (128 / 2 ^ k)) (bit_and_seven u) in
    rw (fb-set_pixel x y (pixel_index u v) black s hx hy, index_iff x y u v hx hu, masked, shown)
      (pixel_cases x y u v black b
        (inked_lem black b (x % 8) (u % 8) (ok.fb _) (omega arith) (omega arith)).1)

-- Over a framebuffer of bytes, writing a pixel gives that pixel the colour and leaves every other
-- as it was; a write outside the panel changes no pixel.
pub get_pixel-set_pixel :
    (x y u v : ℕ) (black : Bool) (s : SharpLcd)
    → IsStored s
    → get_pixel u v (set_pixel x y black s)
      ≡ (if ltb x 400 && ltb y 240 && u == x && v == y then black else get_pixel u v s)
unfolding get_pixel
get_pixel-set_pixel x y u v black s ok = elim (Bool-cases (ltb x 400 && ltb y 240)) [
  | inr outside ↦ ground (arith, set_pixel-outside x y black s)
  | inl inside ↦ ground (arith, pixel-set_pixel x y u v black s ok)
]

inked-IsByte : (b mask : ℕ) (black : Bool) → inked b mask black < 256
unfolding inked
inked-IsByte b mask black = ground arith

pub set_pixel-IsStored :
    (x y : ℕ) (black : Bool) (s : SharpLcd) → IsStored s → IsStored (set_pixel x y black s)
set_pixel-IsStored x y black s ok = record {
  fb = λ i. elim (Bool-cases (ltb x 400 && ltb y 240)) [
    | inr outside ↦ rw (set_pixel-outside x y black s outside) (ok.fb i)
    | inl inside ↦
        ground
          (arith, ok.fb i, fb-set_pixel x y i black s, inked-IsByte (s.fb i) (pixel_mask x) black)
  ];
  dirty = λ i.
      unfold set_pixel in
      ground (
        arith,
        ok.dirty i,
        mark_dirty-bytes y
            (record s {
              fb =
                  store s.fb (pixel_index x y)
                    (inked (s.fb (pixel_index x y)) (pixel_mask x) black);
            })
            ok.dirty i,
      );
}

is_dirty-fb : (r : ℕ) (s : SharpLcd) (m : Memory) → is_dirty r (record s { fb = m }) ≡ is_dirty r s
unfolding is_dirty
is_dirty-fb r s m = refl

-- A line that is clean after a write was clean before it, and the write left it alone.
pub set_pixel-clean :
    (x y r j : ℕ) (black : Bool) (s : SharpLcd)
    → IsStored s
    → j < 50
    → is_dirty r (set_pixel x y black s) ≡ false
    → (is_dirty r s ≡ false)
      × ((set_pixel x y black s).fb (r * line_bytes + j) ≡ s.fb (r * line_bytes + j))
unfolding set_pixel
set_pixel-clean x y r j black s ok hj e = elim (Bool-cases (ltb x 400 && ltb y 240)) [
  | inr outside ↦ ground arith
  | inl inside ↦
      let after = inked (s.fb (pixel_index x y)) (pixel_mask x) black in
      let m = store s.fb (pixel_index x y) after in
      let marked = is_dirty-mark_dirty y r (record s { fb = m }) ok.dirty in
      elim (Bool-cases (after == s.fb (pixel_index x y))) [
        | inl same_byte ↦ ground (arith, is_dirty-fb r s m)
        | inr changed ↦
            ground (arith, is_dirty-fb r s m, marked, fb-mark_dirty y (record s { fb = m }))
      ]
]

pub vcom-set_pixel : (x y : ℕ) (black : Bool) (s : SharpLcd) → (set_pixel x y black s).vcom ≡ s.vcom
unfolding set_pixel mark_dirty
vcom-set_pixel x y black s = ground arith
