-- ===== src/Render/Ink.antt =====
-- lib/MicronRender/src/MicronRender.cpp: a page's colour as brightness. The colour is the parser's,
-- of which the code reads three fields.
use thicket_firmware.Base.{
  ℕ, ◌+◌, ◌*◌, ◌/◌, ◌≤◌, ◌≡◌, arith, Bool, false, not, ◌||◌, ltb, if◌then◌else◌, u8, ◌>>>◌, bit_and,
}
use thicket_firmware.Base.Bits.{bit_and-le}

pub record Color : Type 0 where
  pub is_default : Bool
  pub is_valid : Bool
  pub rgb : ℕ

-- Rec. 601 luma, before any cast.
abbrev pub weighted : ℕ → ℕ
weighted rgb =
    (299 * bit_and (rgb >>> 16) 0xFF + 587 * bit_and (rgb >>> 8) 0xFF + 114 * bit_and rgb 0xFF)
    / 1000

unfoldable pub luma_of : Color → ℕ
luma_of c = if c.is_default || not c.is_valid then 255 else u8 (weighted c.rgb)

unfoldable pub background_is_dark : Color → Bool
background_is_dark c = if c.is_default || not c.is_valid then false else ltb (weighted c.rgb) 128

-- For every colour, the test for a dark background is that its brightness is below half. The cast
-- of the brightness to a byte loses nothing: in thousandths it is the weighted sum of the channels,
-- rounded down. A colour that is not set is as bright as white.
pub background_is_dark-luma_of :
    (c : Color)
    → (background_is_dark c ≡ ltb (luma_of c) 128)
      × (luma_of c ≡ (if c.is_default || not c.is_valid then 255 else weighted c.rgb))
      × (luma_of c ≤ 255)
unfolding luma_of background_is_dark
background_is_dark-luma_of c =
    ground
      (arith, bit_and-le (c.rgb >>> 16) 0xFF, bit_and-le (c.rgb >>> 8) 0xFF, bit_and-le c.rgb 0xFF)
