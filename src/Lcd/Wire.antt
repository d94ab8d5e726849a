-- ===== src/Lcd/Wire.antt =====
-- The byte stream of a data update, and what the panel makes of it.
use thicket_firmware.Base.{
  ℕ, zero, suc, ◌+◌, ◌*◌, ◌≤◌, ◌<◌, ◌≡◌, refl, arith, true, ◌&&◌, List, [], ◌∷◌, ◌++◌, append_assoc,
  append-nil, length, length-append, take-append, drop-append, leb, ltb, ◌==◌, if◌then◌else◌,
  Bool-cases, inl, inr, u16, u32, ◌∙◌, ap₂, lt→ltb, take, drop,
}
use thicket_firmware.Base.Bits.{holds_below, byte_table}
use thicket_firmware.Base.Memory.{Memory, memcpy, slice, length-slice, get_or-slice}
use thicket_firmware.Lcd.SharpLcd.{
  SharpLcd, BusOp, is_dirty, send_lines, dirty_from, line_address, line_bytes, reverse_bits,
}
use thicket_firmware.Lcd.VirtualPanel.{
  VirtualPanel, push, receive, step, drive, write_line, write_lines, tx_max,
}

-- The bytes of the dirty lines from `y` on.
unfoldable pub stream : ℕ → ℕ → SharpLcd → List ℕ
stream zero y s = []
stream (suc left) y s =
    if is_dirty y s
    then line_address (u16 (y + 1))
      ∷ (slice s.fb (y * line_bytes) line_bytes ++ 0 ∷ stream left (y + 1) s)
    else stream left (y + 1) s

pub length-stream : (left y : ℕ) (s : SharpLcd) → length (stream left y s) ≤ 52 * left
unfolding stream
length-stream zero y s = omega arith
length-stream (suc left) y s = ground (
  arith,
  length-stream left (y + 1) s,
  length-append (slice s.fb (y * line_bytes) line_bytes) (0 ∷ stream left (y + 1) s),
  length-slice s.fb (y * line_bytes) line_bytes,
)

pub drive-append :
    (xs ys : List BusOp) (p : VirtualPanel) → drive (xs ++ ys) p ≡ drive ys (drive xs p)
unfolding drive
drive-append [] ys p = refl
drive-append (x ∷ xs) ys p = drive-append xs ys (step x p)

-- Bytes that fit are appended to the open transaction.
push_fits :
    (bs : List ℕ) (p : VirtualPanel)
    → length p.tx + length bs ≤ tx_max
    → push bs p ≡ record p { tx = p.tx ++ bs }
unfolding push
push_fits [] p h = ground (arith, append-nil p.tx)
push_fits (b ∷ bs) p h = ground (
  arith,
  length-append p.tx (b ∷ []),
  append_assoc p.tx (b ∷ []) bs,
  push_fits bs (record p { tx = p.tx ++ b ∷ [] }),
)

pub receive_fits :
    (bs : List ℕ) (p : VirtualPanel)
    → p.selected ≡ true
    → length p.tx + length bs ≤ tx_max
    → receive bs p ≡ record p { tx = p.tx ++ bs }
unfolding receive
receive_fits bs p on h = ground (arith, push_fits bs p h)

pub drive-send_lines :
    (left y : ℕ) (s : SharpLcd) (p : VirtualPanel)
    → p.selected ≡ true
    → length p.tx + length (stream left y s) ≤ tx_max
    → drive (send_lines left y s) p ≡ record p { tx = p.tx ++ stream left y s }
unfolding drive send_lines step stream
drive-send_lines zero y s p on h = ground (arith, append-nil p.tx)
drive-send_lines (suc left) y s p on h =
    let addr = line_address (u16 (y + 1)) in
    let row = slice s.fb (y * line_bytes) line_bytes in
    let rest = stream left (y + 1) s in
    let p1 = record p { tx = p.tx ++ addr ∷ [] } in
    let p2 = record p { tx = (p.tx ++ addr ∷ []) ++ row } in
    let p3 = record p { tx = ((p.tx ++ addr ∷ []) ++ row) ++ 0 ∷ [] } in
    elim (Bool-cases (is_dirty y s)) [
      | inr clean ↦ ground (arith, drive-send_lines left (y + 1) s p)
      | inl changed ↦ ground (
        arith,
        length-append row (0 ∷ rest),
        length-append p.tx (addr ∷ []),
        length-append (p.tx ++ addr ∷ []) row,
        length-append ((p.tx ++ addr ∷ []) ++ row) (0 ∷ []),
        append_assoc ((p.tx ++ addr ∷ []) ++ row) (0 ∷ []) rest,
        append_assoc (p.tx ++ addr ∷ []) row (0 ∷ rest),
        append_assoc p.tx (addr ∷ []) (row ++ 0 ∷ rest),
        receive_fits (addr ∷ []) p on,
        receive_fits row p1 on,
        receive_fits (0 ∷ []) p2 on,
        drive-send_lines left (y + 1) s p3 on,
      )
    ]

-- The panel after taking in the dirty lines one by one.
unfoldable pub painted : ℕ → ℕ → SharpLcd → VirtualPanel → VirtualPanel
painted zero y s p = p
painted (suc left) y s p = painted left (y + 1) s (
    if is_dirty y s
    then write_line (line_address (u16 (y + 1))) (slice s.fb (y * line_bytes) line_bytes) p
    else p)

-- One round of the panel's loop.
write_lines-step :
    (fuel addr : ℕ) (rest : List ℕ) (p : VirtualPanel)
    → ltb (1 + line_bytes) (suc (length rest)) ≡ true
    → write_lines (suc fuel) (addr ∷ rest) p
      ≡ write_lines fuel (drop (line_bytes + 1) rest) (write_line addr (take line_bytes rest) p)
unfolding write_lines
write_lines-step fuel addr rest p long = rw (long, write_lines)

write_lines-row :
    (fuel addr : ℕ) (row tail : List ℕ) (p : VirtualPanel)
    → length row ≡ line_bytes
    → 1 ≤ length tail
    → write_lines (suc fuel) (addr ∷ (row ++ 0 ∷ tail)) p
      ≡ write_lines fuel tail (write_line addr row p)
write_lines-row fuel addr row tail p e h =
    let long : ltb (1 + line_bytes) (suc (length (row ++ 0 ∷ tail))) ≡ true =
      lt→ltb _ _ (omega (arith, length-append row (0 ∷ tail))) in
    let cut : drop 51 (row ++ 0 ∷ tail) ≡ tail =
      rw (← append_assoc row (0 ∷ []) tail)
        (drop-append 51 (row ++ 0 ∷ []) tail (omega (arith, length-append row (0 ∷ [])))) in
    write_lines-step fuel addr (row ++ 0 ∷ tail) p long
    ∙ ap₂ (λ t r. write_lines fuel t (write_line addr r p)) cut (take-append 50 row (0 ∷ tail) e)

-- Decoding the stream takes in exactly the lines that were sent.
pub write_lines-stream :
    (fuel left y : ℕ) (s : SharpLcd) (p : VirtualPanel)
    → length (stream left y s) < fuel
    → write_lines fuel (stream left y s ++ 0 ∷ []) p ≡ painted left y s p
unfolding stream painted
write_lines-stream zero left y s p h = absurd (omega arith)
write_lines-stream (suc fuel) zero y s p h = unfold write_lines in refl
write_lines-stream (suc fuel) (suc left) y s p h =
    let addr = line_address (u16 (y + 1)) in
    let row = slice s.fb (y * line_bytes) line_bytes in
    let rest = stream left (y + 1) s in
    elim (Bool-cases (is_dirty y s)) [
      | inr clean ↦ ground (arith, write_lines-stream (suc fuel) left (y + 1) s p)
      | inl changed ↦ ground (
        arith,
        length-append row (0 ∷ rest),
        length-append rest (0 ∷ []),
        length-slice s.fb (y * line_bytes) line_bytes,
        append_assoc row (0 ∷ rest) (0 ∷ []),
        write_lines-row fuel addr row (rest ++ 0 ∷ []) p,
        write_lines-stream fuel left (y + 1) s (write_line addr row p),
      )
    ]

address_table : holds_below 240 (λ y. reverse_bits (line_address (u16 (y + 1))) == y + 1) ≡ true
unfolding holds_below line_address
address_table = refl

-- The panel reads the gate address back as the line that the driver meant.
pub address_lem : (y : ℕ) → y < 240 → reverse_bits (line_address (u16 (y + 1))) ≡ y + 1
address_lem y h =
    byte_table 240 (λ y. reverse_bits (line_address (u16 (y + 1)))) (λ y. y + 1) y address_table h

-- Taking in the lines from `y` on: a dirty line of the range shows the framebuffer, any other
-- byte stays, and only the line counter moves besides.
pub record IsPainted (left y : ℕ) (s : SharpLcd) (p p' : VirtualPanel) : Type 0 where
  pub rows :
      (r j : ℕ)
      → j < line_bytes
      → p'.img (r * line_bytes + j) ≡ (
          if leb y r && ltb r (y + left) && is_dirty r s
          then s.fb (r * line_bytes + j)
          else p.img (r * line_bytes + j))
  pub lines : u32 p'.lines_written ≡ u32 (p.lines_written + dirty_from left y s)
  pub rest :
      (p'.tx ≡ p.tx)
      × (p'.vcom ≡ p.vcom)
      × (p'.selected ≡ p.selected)
      × (p'.clears ≡ p.clears)
      × (p'.vcom_toggles ≡ p.vcom_toggles)
      × (p'.overflowed ≡ p.overflowed)

write_line-row :
    (y : ℕ) (bytes : List ℕ) (p : VirtualPanel)
    → y < 240
    → write_line (line_address (u16 (y + 1))) bytes p ≡ record p {
      img = memcpy p.img (y * line_bytes) bytes;
      lines_written = u32 (p.lines_written + 1);
    }
unfolding write_line
write_line-row y bytes p h = ground (arith, address_lem y h)

-- Copying one row of the framebuffer to its place changes that row alone.
memcpy-slice :
    (m fb : Memory) (y r j : ℕ)
    → j < line_bytes
    → memcpy m (y * line_bytes) (slice fb (y * line_bytes) line_bytes) (r * line_bytes + j)
      ≡ (if y == r then fb (r * line_bytes + j) else m (r * line_bytes + j))
memcpy-slice m fb y r j h = ground (
  arith,
  length-slice fb (y * line_bytes) line_bytes,
  get_or-slice fb (y * line_bytes) line_bytes j h,
)

pub painted-IsPainted :
    (left y : ℕ) (s : SharpLcd) (p : VirtualPanel)
    → y + left ≤ 240
    → IsPainted left y s p (painted left y s p)
unfolding dirty_from painted
painted-IsPainted zero y s p h = record {
  rows = λ r j hj. ground arith;
  lines = ground arith;
  rest = (refl, refl, refl, refl, refl, refl);
}
painted-IsPainted (suc left) y s p h =
    let row = slice s.fb (y * line_bytes) line_bytes in
    elim (Bool-cases (is_dirty y s)) [
      | inr clean ↦
          let later = painted-IsPainted left (y + 1) s p (omega arith) in
          rw clean (record {
            rows = λ r j hj. elim (Bool-cases (y == r)) [
              | inl here ↦ ground (arith, later.rows r j hj)
              | inr other ↦ ground (arith, later.rows r j hj)
            ];
            lines = ground (arith, later.lines);
            rest = later.rest;
          })
      | inl changed ↦
          let p1 = record p {
            img = memcpy p.img (y * line_bytes) row;
            lines_written = u32 (p.lines_written + 1);
          } in
          let copied = memcpy-slice p.img s.fb y in
          let later = painted-IsPainted left (y + 1) s p1 (omega arith) in
          rw (changed, write_line-row y row p (omega arith))
            (record {
              rows = λ r j hj. elim (Bool-cases (y == r)) [
                | inl here ↦ ground (arith, later.rows r j hj, copied r j hj)
                | inr other ↦ ground (arith, later.rows r j hj, copied r j hj)
              ];
              lines = ground (arith, later.lines);
              rest = later.rest;
            })
    ]
