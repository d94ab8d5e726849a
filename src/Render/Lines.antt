-- ===== src/Render/Lines.antt =====
-- The lines of a table's cell: as many are counted as are drawn.
use thicket_firmware.Base.{
  ℕ, zero, suc, ◌+◌, ◌-◌, ◌≤◌, ◌<◌, ◌≡◌, refl, arith, ltb, Bool-cases, inl, inr,
}
use thicket_firmware.Base.Memory.{Memory}
use thicket_firmware.Render.Page.{seq_len}
use thicket_firmware.Render.Flush.{
  take_cells, back_up, line_break, skip_blanks, next_line, lines_needed, line_start,
}
use thicket_firmware.Render.Words.{seq_len-range}

-- A line takes a glyph where there is one; its last glyph may pass the end by three bytes.
take_cells_lem :
    (left : ℕ) (t : Memory) (n width e : ℕ)
    → let q = take_cells left t n width e in
      (e ≤ q) × (e ≤ n + 3 → q ≤ n + 3) × (e < n → 0 < left → 0 < width → e < q)
unfolding take_cells
take_cells_lem zero t n width e = (omega arith, λ h. omega arith, λ h k l. absurd (omega arith))
take_cells_lem (suc left) t n zero e =
    (omega arith, λ h. omega arith, λ h k l. absurd (omega arith))
take_cells_lem (suc left) t n (suc width) e =
    let size = seq_len-range (t e) in
    let (a, b, c) = take_cells_lem left t n width (e + seq_len (t e)) in
    elim (Bool-cases (ltb e n)) [
      | inr ended ↦
          rw ended (omega arith, λ h. omega arith, λ h k l. absurd (ground (arith, ended, h)))
      | inl more ↦ rw more (
        omega (arith, a, size),
        λ h. b (ground (arith, more, size)),
        λ h k l. omega (arith, a, size),
      )
    ]

back_up-le : (left : ℕ) (t : Memory) (at brk : ℕ) → back_up left t at brk ≤ brk
unfolding back_up
back_up-le zero t at brk = omega arith
back_up-le (suc left) t at brk = ground (arith, back_up-le left t at (brk - 1))

-- A line of a column that has a width takes one byte or more of what is left.
line_break-range :
    (t : Memory) (n width at : ℕ)
    → at < n
    → 0 < width
    → (at < line_break t n width at) × (line_break t n width at ≤ n + 3)
unfolding line_break
line_break-range t n width at more wide =
    let e = take_cells (n - at) t n width at in
    let (low, high, some_cell) = take_cells_lem (n - at) t n width at in
    let brk = back_up (e - at) t at e in
    let back = back_up-le (e - at) t at e in
    let further = some_cell more (omega arith) wide in
    let near = high (omega arith) in ground (arith, back, further, near)

skip_blanks-le : (left : ℕ) (t : Memory) (n at : ℕ) → at ≤ skip_blanks left t n at
unfolding skip_blanks
skip_blanks-le zero t n at = omega arith
skip_blanks-le (suc left) t n at = ground (arith, skip_blanks-le left t n (at + 1))

lines_needed-zero :
    (left : ℕ) (t : Memory) (n width at : ℕ) → n ≤ at → lines_needed left t n width at ≡ 0
unfolding lines_needed
lines_needed-zero zero t n width at past = refl
lines_needed-zero (suc left) t n width at past = ground arith

-- A line that begins in the cell and takes something of it.
abbrev pub DrawsSome : Memory → ℕ → ℕ → ℕ → Type 0
DrawsSome t n width at = (at < n) × (at < line_break t n width at)

line_start-suc :
    (pass : ℕ) (t : Memory) (n width at : ℕ)
    → next_line t n width at < n
    → line_start (suc pass) t n width at ≡ line_start pass t n width (next_line t n width at)
unfolding line_start
line_start-suc pass t n width at more = ground (arith, more)

line_start-past :
    (pass : ℕ) (t : Memory) (n width at : ℕ)
    → n ≤ next_line t n width at
    → n ≤ line_start (suc pass) t n width at
unfolding line_start
line_start-past pass t n width at past = ground (arith, past)

-- Each line that is counted from `at` on draws something.
counted_line :
    (left : ℕ) (t : Memory) (n width at pass : ℕ)
    → 0 < width
    → pass < lines_needed left t n width at
    → DrawsSome t n width (line_start pass t n width at)
unfolding lines_needed
counted_line zero t n width at pass wide h = absurd (omega arith)
counted_line (suc left) t n width at zero wide h =
    let more : at < n = ground (arith, h) in
    unfold line_start in (more, (line_break-range t n width at more wide).0)
counted_line (suc left) t n width at (suc pass) wide h =
    let next = next_line t n width at in
    let fewer : pass < lines_needed left t n width next = ground (arith, h) in
    let more : next < n = elim (Bool-cases (ltb next n)) [
      | inl inner ↦ ground (arith, inner)
      | inr past ↦
          absurd
            (omega (arith, fewer, lines_needed-zero left t n width next (ground (arith, past))))
    ] in
    rw (line_start-suc pass t n width at more) (counted_line left t n width next pass wide fewer)

-- After the lines that are counted nothing is left, where they are fewer than the limit.
lines_cover :
    (left : ℕ) (t : Memory) (n width at : ℕ)
    → lines_needed left t n width at < left
    → n ≤ line_start (lines_needed left t n width at) t n width at
unfolding lines_needed
lines_cover zero t n width at h = absurd (omega arith)
lines_cover (suc left) t n width at h = elim (Bool-cases (ltb at n)) [
  | inr ended ↦ rw ended (unfold line_start in ground (arith, ended))
  | inl more ↦
      let next = next_line t n width at in
      let need = lines_needed left t n width next in
      let fewer : need < left = ground (arith, more, h) in
      elim (Bool-cases (ltb next n)) [
        | inl inner ↦
            rw (more, line_start-suc need t n width at (ground (arith, inner)))
              (lines_cover left t n width next fewer)
        | inr past ↦ rw more (line_start-past need t n width at (ground (arith, past)))
      ]
]

-- The lines of a cell of a column that has a width are counted as they are drawn: each line that
-- is counted begins in the cell's text and takes a byte of it or more, and where fewer than 32 are
-- counted, the line after the last of them begins past the text, so that nothing of it is left.
pub lines_needed-line_start :
    (t : Memory) (n width : ℕ)
    → 0 < width
    → let need = lines_needed 32 t n width 0 in
      ((pass : ℕ) → pass < need → DrawsSome t n width (line_start pass t n width 0))
      × (need < 32 → n ≤ line_start need t n width 0)
lines_needed-line_start t n width wide =
    (λ pass h. counted_line 32 t n width 0 pass wide h, lines_cover 32 t n width 0)
