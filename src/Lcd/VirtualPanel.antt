-- ===== src/Lcd/VirtualPanel.antt =====
-- lib/SharpLcd/src/VirtualPanel.{h,cpp}: the host-side panel, which decodes the driver's byte
-- stream into an image. `tx` holds the bytes of the open transaction, `_tx[0.._tx_len)`.
use thicket_firmware.Base.{
  ℕ, zero, suc, ◌+◌, ◌-◌, ◌*◌, Bool, true, false, not, ◌||◌, ◌&&◌, List, [], ◌∷◌, ◌++◌, length,
  take, drop, bit_and, ltb, leb, ◌==◌, if◌then◌else◌, u32, same,
}
use thicket_firmware.Base.Memory.{Memory, memset, memcpy}
use thicket_firmware.Lcd.SharpLcd.{
  BusOp, select, write, reverse_bits, lcd_width, lcd_height, line_bytes, fb_bytes, m0_write,
  m1_vcom, m2_clear, pixel_mask, pixel_index,
}

-- A full-screen flush is mode, 240 times address, fifty bytes and gap, and the trailer.
abbrev pub tx_max : ℕ
tx_max = 1 + lcd_height * (1 + line_bytes + 1) + 1

pub record VirtualPanel : Type 0 where
  pub img : Memory
  pub tx : List ℕ
  pub selected : Bool
  pub vcom : Bool
  pub lines_written : ℕ
  pub clears : ℕ
  pub vcom_toggles : ℕ
  pub overflowed : Bool

-- The panel powers up white.
unfoldable pub power_up : VirtualPanel
power_up = record {
  img = λ i. 0xFF;
  tx = [];
  selected = false;
  vcom = false;
  lines_written = 0;
  clears = 0;
  vcom_toggles = 0;
  overflowed = false;
}

unfoldable pub push : List ℕ → VirtualPanel → VirtualPanel
push [] p = p
push (b ∷ bs) p = elim (leb tx_max (length p.tx)) [
  | true ↦ record p { overflowed = true }
  | false ↦ push bs (record p { tx = p.tx ++ b ∷ [] })
]

unfoldable pub receive : List ℕ → VirtualPanel → VirtualPanel
receive bytes p = if p.selected then push bytes p else p

-- One line of a data update: the address names it, lines outside the panel are dropped.
unfoldable pub write_line : ℕ → List ℕ → VirtualPanel → VirtualPanel
write_line addr bytes p =
    let line = reverse_bits addr in
    if leb 1 line && leb line lcd_height
    then record p {
      img = memcpy p.img ((line - 1) * line_bytes) bytes;
      lines_written = u32 (p.lines_written + 1);
    }
    else p

-- The loop over the lines; the list is what `_tx` holds from `i` on. Each round takes 52 bytes,
-- so the length of the list is enough fuel.
unfoldable pub write_lines : ℕ → List ℕ → VirtualPanel → VirtualPanel
write_lines zero bytes p = p
write_lines (suc fuel) [] p = p
write_lines (suc fuel) (addr ∷ rest) p = elim (ltb (1 + line_bytes) (suc (length rest))) [
  | true ↦ write_lines fuel (drop (line_bytes + 1) rest) (write_line addr (take line_bytes rest) p)
  | false ↦ p
]

unfoldable pub set_vcom : Bool → VirtualPanel → VirtualPanel
set_vcom want p =
    if same want p.vcom
    then p
    else record p { vcom = want; vcom_toggles = u32 (p.vcom_toggles + 1) }

unfoldable pub apply_mode : ℕ → List ℕ → VirtualPanel → VirtualPanel
apply_mode mode rest p =
    if not (bit_and mode m2_clear == 0)
    then record p { img = memset p.img 0xFF fb_bytes; clears = u32 (p.clears + 1) }
    else if bit_and mode m0_write == 0
    then p
    else write_lines (length rest) rest p

unfoldable pub apply_bytes : List ℕ → VirtualPanel → VirtualPanel
apply_bytes [] p = p
apply_bytes (mode ∷ rest) p = apply_mode mode rest (set_vcom (not (bit_and mode m1_vcom == 0)) p)

unfoldable pub apply_transaction : VirtualPanel → VirtualPanel
apply_transaction p = apply_bytes p.tx p

unfoldable pub select_panel : Bool → VirtualPanel → VirtualPanel
select_panel true p = record p { selected = true; tx = [] }
select_panel false p = record (apply_transaction (record p { selected = false })) { tx = [] }

unfoldable pub step : BusOp → VirtualPanel → VirtualPanel
step (select on) p = select_panel on p
step (write bytes) p = receive bytes p

-- The panel on the bus, over the driver's calls in order.
unfoldable pub drive : List BusOp → VirtualPanel → VirtualPanel
drive [] p = p
drive (op ∷ ops) p = drive ops (step op p)

unfoldable pub pixel : ℕ → ℕ → VirtualPanel → Bool
pixel x y p =
    if leb lcd_width x || leb lcd_height y
    then false
    else bit_and (p.img (pixel_index x y)) (pixel_mask x) == 0

unfoldable pub reset_counters : VirtualPanel → VirtualPanel
reset_counters p = record p { lines_written = 0; clears = 0; vcom_toggles = 0 }
