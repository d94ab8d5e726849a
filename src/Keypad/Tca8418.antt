-- ===== src/Keypad/Tca8418.antt =====
-- lib/Keypad/src/Tca8418.{h,cpp}: the keypad scanner's FIFO decode and configuration.
-- The bus is the abstract `Tca8418Bus`: any state with a fallible register read and write. A read
-- that fails gives `none`; the C++ then returns false and leaves the caller's variable as it was.
pub mod Reg
pub mod FakeBus
pub mod Decode
pub mod Poll
pub mod Config
mod Tests
use thicket_firmware.Base.{
  ℕ, zero, suc, ◌+◌, ◌-◌, ◌*◌, ◌/◌, ◌%◌, Bool, true, false, ◌||◌, Option, none, some, List, [], ◌∷◌,
  bit_and, bit_or, ltb, leb, ◌==◌, if◌then◌else◌, not, u8, ◌<<<◌,
}
use Reg
use Reg.{rows_max, cols_max, gpi_first}

pub record KeyEvent : Type 0 where
  pub row : ℕ
  pub col : ℕ
  pub pressed : Bool

pub record Bus (S : Type 0) : Type 0 where
  pub write_reg : ℕ → ℕ → S → Bool × S
  pub read_reg : ℕ → S → Option ℕ × S

-- `none` is the return value false, which leaves `ev` alone.
pub decode : ℕ → Option KeyEvent
decode raw =
    let key = bit_and raw 0x7F in
    if raw == 0x00
    then none
    else if key == 0
    then none
    else if leb gpi_first key
    then none
    else if ltb (rows_max * cols_max) key
    then none
    else some (record {
      row = u8 ((key - 1) / cols_max);
      col = u8 ((key - 1) % cols_max);
      pressed = not (bit_and raw 0x80 == 0);
    })

-- The driver object: the bus behind it and the sticky overflow flag.
pub record Driver (S : Type 0) : Type 0 where
  pub bus : S
  pub overflowed : Bool

pub clear_overflow : {S : Type 0} → Driver S → Driver S
clear_overflow d = record d { overflowed = false }

abbrev pub row_mask : ℕ → ℕ
row_mask rows = u8 ((1 <<< rows) - 1)

abbrev pub col_mask1 : ℕ → ℕ
col_mask1 cols = u8 (if leb 8 cols then 0xFF else (1 <<< cols) - 1)

abbrev pub col_mask2 : ℕ → ℕ
col_mask2 cols = u8 (if ltb 8 cols then (1 <<< (cols - 8)) - 1 else 0x00)

abbrev pub cfg_value : ℕ
cfg_value = u8 (bit_or (bit_or Reg.cfg_ke_ien Reg.cfg_ovr_flow_ien) Reg.cfg_ovr_flow_m)

module _ {S : Type 0} (b : Bus S) where
  open b use {write_reg, read_reg}

  -- `if (!_bus.write_reg(reg, value)) return false;` and then the rest.
  pub write_then : ℕ → ℕ → (S → Bool × S) → S → Bool × S
  write_then reg value rest s =
      let (ok, s') = write_reg reg value s in if ok then rest s' else (false, s')

  -- What is left latched from before the configuration; failures are ignored here.
  pub clear_latched : S → Bool × S
  clear_latched s =
      let (stat, s') = read_reg Reg.int_stat s in
      elim stat [
        | none ↦ (true, s')
        | some v ↦ if v == 0 then (true, s') else (true, (write_reg Reg.int_stat v s').1)
      ]

  pub configure : ℕ → ℕ → S → Bool × S
  configure rows cols = write_then Reg.kp_gpio1 (row_mask rows) (
      write_then Reg.kp_gpio2 (col_mask1 cols) (
        write_then Reg.kp_gpio3 (col_mask2 cols)
          (write_then Reg.debounce_dis1 0x00 (write_then Reg.cfg cfg_value clear_latched))))

  pub begin : ℕ → ℕ → S → Bool × S
  begin rows cols s =
      if rows == 0 || ltb rows_max rows || cols == 0 || ltb cols_max cols
      then (false, s)
      else configure rows cols s

  -- The loop `while (pending > 0 && n < max)`, with what it stores from `out[n]` on.
  pub drain : ℕ → ℕ → ℕ → S → List KeyEvent × S
  drain zero max n s = ([], s)
  drain (suc pending) max n s = elim (ltb n max) [
    | false ↦ ([], s)
    | true ↦
        let (raw, s') = read_reg Reg.key_event_a s in
        elim raw [
          | none ↦ ([], s')
          | some v ↦ elim (v == 0x00) [
            | true ↦ ([], s')
            | false ↦ elim (decode v) [
              | none ↦ drain pending max n s'
              | some ev ↦ let (evs, s'') = drain pending max (n + 1) s' in (ev ∷ evs, s'')
            ]
          ]
        ]
  ]

  -- Clear by writing the bits back.
  pub ack : ℕ → Driver S → Driver S
  ack stat d = if stat == 0 then d else record d { bus = (write_reg Reg.int_stat stat d.bus).1 }

  -- `poll` from the point where INT_STAT has been read as `stat`.
  pub poll_stat : ℕ → ℕ → Driver S → List KeyEvent × Driver S
  poll_stat max stat d =
      let d1 = if bit_and stat Reg.int_ovr_flow == 0 then d else record d { overflowed = true } in
      if bit_and stat Reg.int_k == 0
      then ([], ack stat d1)
      else (let (ec, s) = read_reg Reg.key_lck_ec d1.bus in
          elim ec [
            | none ↦ ([], record d1 { bus = s })
            | some v ↦
                let (evs, s') = drain (u8 (bit_and v 0x0F)) max 0 s in
                (evs, ack stat (record d1 { bus = s' }))
          ])

  -- The list is what is written to `out`, its length the return value. The first argument says
  -- that `out` is null.
  pub poll : Bool → ℕ → Driver S → List KeyEvent × Driver S
  poll out_null max d =
      if out_null || max == 0
      then ([], d)
      else (let (stat, s) = read_reg Reg.int_stat d.bus in
          elim stat [
            | none ↦ ([], record d { bus = s })
            | some v ↦ poll_stat max v (record d { bus = s })
          ])
