-- ===== src/Lcd/SharpLcd.antt =====
-- lib/SharpLcd/src/SharpLcd.{h,cpp}: the framebuffer, the dirty lines and the wire format. What
-- the driver sends is the list of its calls on the abstract `SharpLcdBus`.
use thicket_firmware.Base.{
  ℕ, zero, suc, ◌+◌, ◌-◌, ◌*◌, Bool, true, false, not, ◌||◌, List, [], ◌∷◌, ◌++◌, bit_and, bit_or,
  leb, ◌==◌, if◌then◌else◌, u8, u16, ◌<<<◌, ◌>>>◌,
}
use thicket_firmware.Base.Memory.{Memory, store, memset, slice}

abbrev pub lcd_width : ℕ
lcd_width = 400

abbrev pub lcd_height : ℕ
lcd_height = 240

abbrev pub line_bytes : ℕ
line_bytes = 50

abbrev pub fb_bytes : ℕ
fb_bytes = 12000

abbrev pub m0_write : ℕ
m0_write = 0x80

abbrev pub m1_vcom : ℕ
m1_vcom = 0x40

abbrev pub m2_clear : ℕ
m2_clear = 0x20

abbrev pub dirty_bytes : ℕ
dirty_bytes = 30

pub data BusOp : Type 0 where
  select : Bool → BusOp
  write : List ℕ → BusOp

pub record SharpLcd : Type 0 where
  pub fb : Memory
  pub dirty : Memory
  pub vcom : Bool

-- The constructor: no line is dirty, whatever the framebuffer holds.
unfoldable pub init : Memory → SharpLcd
init framebuffer = record { fb = framebuffer; dirty = λ i. 0; vcom = false }

unfoldable pub reverse_bits : ℕ → ℕ
reverse_bits v =
    let a = u8 (bit_or (bit_and v 0xF0 >>> 4) (bit_and v 0x0F <<< 4)) in
    let b = u8 (bit_or (bit_and a 0xCC >>> 2) (bit_and a 0x33 <<< 2)) in
    u8 (bit_or (bit_and b 0xAA >>> 1) (bit_and b 0x55 <<< 1))

unfoldable pub line_address : ℕ → ℕ
unfolding reverse_bits
line_address line = reverse_bits (u8 line)

-- The bit for line `y` in its byte of the dirty set.
unfoldable pub with_bit : ℕ → ℕ → ℕ
with_bit b k = u8 (bit_or b (u8 (1 <<< k)))

unfoldable pub has_bit : ℕ → ℕ → Bool
has_bit b k = not (bit_and (b >>> k) 1 == 0)

unfoldable pub mark_dirty : ℕ → SharpLcd → SharpLcd
mark_dirty y s = record s {
  dirty = store s.dirty (y >>> 3) (with_bit (s.dirty (y >>> 3)) (bit_and y 7));
}

unfoldable pub is_dirty : ℕ → SharpLcd → Bool
is_dirty y s = has_bit (s.dirty (y >>> 3)) (bit_and y 7)

-- `for (y = ...; y < LCD_HEIGHT; ++y) if (is_dirty(y)) ++n`, by the rounds left.
unfoldable pub dirty_from : ℕ → ℕ → SharpLcd → ℕ
dirty_from zero y s = 0
dirty_from (suc left) y s = (if is_dirty y s then 1 else 0) + dirty_from left (y + 1) s

unfoldable pub dirty_lines : SharpLcd → ℕ
dirty_lines s = dirty_from lcd_height 0 s

unfoldable pub fill_white : SharpLcd → SharpLcd
fill_white s = record s { fb = memset s.fb 0xFF fb_bytes; dirty = memset s.dirty 0xFF dirty_bytes }

abbrev pub pixel_mask : ℕ → ℕ
pixel_mask x = u8 (0x80 >>> bit_and x 7)

abbrev pub pixel_index : ℕ → ℕ → ℕ
pixel_index x y = y * line_bytes + (x >>> 3)

-- One bit of a byte cleared for black or set for white. `~mask` is cut to a byte.
unfoldable pub inked : ℕ → ℕ → Bool → ℕ
inked b mask black = if black then u8 (bit_and b (255 - mask)) else u8 (bit_or b mask)

unfoldable pub set_pixel : ℕ → ℕ → Bool → SharpLcd → SharpLcd
set_pixel x y black s =
    if leb lcd_width x || leb lcd_height y
    then s
    else (let i = pixel_index x y in
        let after = inked (s.fb i) (pixel_mask x) black in
        let s' = record s { fb = store s.fb i after } in
        if after == s.fb i then s' else mark_dirty y s')

unfoldable pub get_pixel : ℕ → ℕ → SharpLcd → Bool
get_pixel x y s =
    if leb lcd_width x || leb lcd_height y
    then false
    else bit_and (s.fb (pixel_index x y)) (pixel_mask x) == 0

-- The transfer of the dirty lines from `y` on, by the rounds left.
unfoldable pub send_lines : ℕ → ℕ → SharpLcd → List BusOp
send_lines zero y s = []
send_lines (suc left) y s =
    let rest = send_lines left (y + 1) s in
    if is_dirty y s
    then write (line_address (u16 (y + 1)) ∷ [])
      ∷ write (slice s.fb (y * line_bytes) line_bytes)
      ∷ write (0x00 ∷ [])
      ∷ rest
    else rest

abbrev pub vcom_bit : Bool → ℕ
vcom_bit v = if v then m1_vcom else 0x00

-- The mode byte of a data update.
abbrev pub update_mode : Bool → ℕ
update_mode v = if v then bit_or m0_write m1_vcom else m0_write

unfoldable pub flush : SharpLcd → ℕ × SharpLcd × List BusOp
flush s =
    let n = dirty_lines s in
    if n == 0 then (0, s, []) else (
      n,
      record s { dirty = memset s.dirty 0 dirty_bytes },
      select true
          ∷ write (update_mode s.vcom ∷ [])
          ∷ (send_lines lcd_height 0 s ++ write (0x00 ∷ []) ∷ select false ∷ []),
    )

unfoldable pub toggle_vcom : SharpLcd → SharpLcd × List BusOp
toggle_vcom s =
    let v = not s.vcom in
    (record s { vcom = v }, select true ∷ write (vcom_bit v ∷ 0x00 ∷ []) ∷ select false ∷ [])

unfoldable pub clear : SharpLcd → SharpLcd × List BusOp
clear s = (
  record s { fb = memset s.fb 0xFF fb_bytes; dirty = memset s.dirty 0 dirty_bytes },
  select true ∷ write (bit_or m2_clear (vcom_bit s.vcom) ∷ 0x00 ∷ []) ∷ select false ∷ [],
)
