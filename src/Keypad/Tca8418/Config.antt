-- ===== src/Keypad/Tca8418/Config.antt =====
-- What `begin` configures.
use thicket_firmware.Base.{
  ℕ, ◌+◌, ◌-◌, ◌*◌, ◌^◌, ◌≤◌, ◌<◌, ◌≡◌, ◌⊎◌, refl, arith, Bool, true, false, List, [], ◌∷◌, ◌++◌,
  ◌==◌, if◌then◌else◌, ◌∙◌, append_assoc, append-nil,
}
use thicket_firmware.Base.Bits.{holds_below, byte_table}
use thicket_firmware.Keypad.Tca8418.{
  Bus, begin, configure, write_then, clear_latched, row_mask, col_mask1, col_mask2,
}
use thicket_firmware.Keypad.Tca8418.FakeBus.{FakeBus}
use thicket_firmware.Keypad.Tca8418.Poll.{fake}
use thicket_firmware.Keypad.Tca8418.Reg

-- A size outside the part's 8 by 10 matrix is refused, and the bus is not touched.
begin_refuses :
    {S : Type 0} (b : Bus S) (rows cols : ℕ) (s : S)
    → (rows ≡ 0) ⊎ (8 < rows) ⊎ (cols ≡ 0) ⊎ (10 < cols)
    → begin b rows cols s ≡ (false, s)
unfolding begin
begin_refuses b rows cols s h = ground arith

-- The scripted bus after further writes.
abbrev logged : FakeBus → List (ℕ × ℕ) → FakeBus
logged s ws = record s { writes = s.writes ++ ws }

write_then-logged :
    (reg value : ℕ) (rest : FakeBus → Bool × FakeBus) (s : FakeBus) (ws : List (ℕ × ℕ))
    → s.fail_all ≡ false
    → write_then fake reg value rest (logged s ws) ≡ rest (logged s (ws ++ (reg, value) ∷ []))
unfolding write_then
write_then-logged reg value rest s ws up =
    ground (arith, append_assoc s.writes ws ((reg, value) ∷ []))

write_then-fresh :
    (reg value : ℕ) (rest : FakeBus → Bool × FakeBus) (s : FakeBus)
    → s.fail_all ≡ false
    → write_then fake reg value rest s ≡ rest (logged s ((reg, value) ∷ []))
unfolding write_then
write_then-fresh reg value rest s up = ground arith

abbrev pub config : ℕ → ℕ → List (ℕ × ℕ)
config rows cols =
    (Reg.kp_gpio1, row_mask rows)
    ∷ (Reg.kp_gpio2, col_mask1 cols)
    ∷ (Reg.kp_gpio3, col_mask2 cols)
    ∷ (Reg.debounce_dis1, 0)
    ∷ (Reg.cfg, 0x29)
    ∷ []

abbrev pub write_backs : ℕ → List (ℕ × ℕ)
write_backs stat = if stat == 0 then [] else (Reg.int_stat, stat) ∷ []

clear_latched-writes :
    (s : FakeBus) (ws : List (ℕ × ℕ)) (stat : ℕ) {stats : List ℕ}
    → s.fail_all ≡ false
    → s.reads Reg.int_stat ≡ stat ∷ stats
    → ((clear_latched fake (logged s ws)).0 ≡ true)
      × ((clear_latched fake (logged s ws)).1.writes ≡ s.writes ++ ws ++ write_backs stat)
unfolding clear_latched
clear_latched-writes s ws stat up st = ground (
  arith,
  append_assoc s.writes ws ((Reg.int_stat, stat) ∷ []),
  append_assoc s.writes ws [],
  append-nil ws,
  append-nil (s.writes ++ ws),
)

configure-logged :
    (rows cols : ℕ) (s : FakeBus)
    → s.fail_all ≡ false
    → configure fake rows cols s ≡ clear_latched fake (logged s (config rows cols))
unfolding configure
configure-logged rows cols s up =
    write_then-fresh _ _ _ s up
    ∙ write_then-logged _ _ _ s _ up
    ∙ write_then-logged _ _ _ s _ up
    ∙ write_then-logged _ _ _ s _ up
    ∙ write_then-logged _ _ _ s _ up

bits_table : holds_below 9 (λ r. row_mask r == 2 ^ r - 1) ≡ true
unfolding holds_below
bits_table = refl

col_bits_table : holds_below 11 (λ c. col_mask1 c + 256 * col_mask2 c == 2 ^ c - 1) ≡ true
unfolding holds_below
col_bits_table = refl

-- For a size inside the part's matrix, on a working bus, `begin` succeeds. It writes the five
-- configuration registers in order and then what INT_STAT had latched, and nothing else. The
-- masks claim exactly the first `rows` row pins and the first `cols` column pins.
pub begin-FakeBus :
    (rows cols stat : ℕ) (s : FakeBus) {stats : List ℕ}
    → (1 ≤ rows) × (rows ≤ 8) × (1 ≤ cols) × (cols ≤ 10)
    → s.fail_all ≡ false
    → s.reads Reg.int_stat ≡ stat ∷ stats
    → let (done, s') = begin fake rows cols s in
      (done ≡ true)
      × (s'.writes ≡ s.writes ++ config rows cols ++ write_backs stat)
      × (row_mask rows ≡ 2 ^ rows - 1)
      × (col_mask1 cols + 256 * col_mask2 cols ≡ 2 ^ cols - 1)
unfolding begin
begin-FakeBus rows cols stat s size up st =
    let entered : begin fake rows cols s ≡ configure fake rows cols s = ground arith in
    let run = clear_latched-writes s (config rows cols) stat up st in
    rw (entered, configure-logged rows cols s up)
      (
        run.0,
        run.1,
        byte_table 9 (λ r. row_mask r) (λ r. 2 ^ r - 1) rows bits_table (omega arith),
        byte_table 11 (λ c. col_mask1 c + 256 * col_mask2 c) (λ c. 2 ^ c - 1) cols col_bits_table
            (omega arith),
      )
