-- ===== src/Render/Buffer.antt =====
-- The table buffer: no row leaves its bounds, and the cells that are in it stay.
use thicket_firmware.Base.{
  ℕ, zero, suc, ◌+◌, ◌-◌, ◌≤◌, ◌<◌, ◌≡◌, ◌⊎◌, refl, sym, ◌∙◌, arith, not, ◌&&◌, ◌||◌, List, [], ◌∷◌,
  ltb, ◌==◌, if◌then◌else◌, u8, u16, set, get_or, length, length-set, Bool-cases, inl, inr,
}
use thicket_firmware.Base.Memory.{Memory}
use thicket_firmware.Render.State.{TableState}
use thicket_firmware.Render.Run.{from, skip_spaces}
use thicket_firmware.Render.Page.{cells}
use thicket_firmware.Render.Tables.{
  Strip, keep, keep_label, strip_link, strip_command, is_command, strip_step, strip_loop,
  cell_index, add_cell, clear_cells, trim_cell,
}

-- What a buffer keeps where a cell is put behind its first `tlen` bytes.
unfoldable pub Keeps : ℕ → Memory → Memory → Type 0
Keeps tlen before after = (j : ℕ) → (j < tlen) ⊎ (1024 ≤ j) → after j ≡ before j

-- A cell that is being stripped into the buffer.
pub record IsStrip (tlen : ℕ) (before : Memory) (s : Strip) : Type 0 where
  pub room : tlen + s.n ≤ 1024
  pub short : s.n ≤ 255
  pub kept : Keeps tlen before s.tbuf

keep-IsStrip :
    (tlen byte : ℕ) (before : Memory) (s : Strip)
    → IsStrip tlen before s
    → s.n < 255
    → IsStrip tlen before (keep tlen byte s)
unfolding keep Keeps
keep-IsStrip tlen byte before s ok short = elim (Bool-cases (ltb (tlen + s.n) 1024)) [
  | inr full ↦ rw full (record { room = ok.room; short = ok.short; kept = ok.kept })
  | inl room ↦
      let free : tlen + s.n < 1024 = ground (arith, room) in
      rw room (record {
        room = omega (arith, free);
        short = omega (arith, short);
        kept = λ j h. ground (arith, ok.kept j h, h, free);
      })
]

-- Another place in the row.
at-IsStrip :
    (tlen k : ℕ) (before : Memory) (s : Strip)
    → IsStrip tlen before s
    → IsStrip tlen before (record s { k = k })
at-IsStrip tlen k before s ok = record { room = ok.room; short = ok.short; kept = ok.kept }

keep_label-IsStrip :
    (left : ℕ) (row : Memory) (tlen stop q : ℕ) (before : Memory) (s : Strip)
    → IsStrip tlen before s
    → IsStrip tlen before (keep_label left row tlen stop q s)
unfolding keep_label
keep_label-IsStrip zero row tlen stop q before s ok = ok
keep_label-IsStrip (suc left) row tlen stop q before s ok =
    elim (Bool-cases (ltb q stop && ltb s.n 255)) [
      | inr ended ↦ rw ended ok
      | inl more ↦
          let kept = keep-IsStrip tlen (row q) before s ok (ground (arith, more)) in
          elim (Bool-cases (ltb (tlen + s.n) 1024)) [
            | inl room ↦
                rw (more, room) (keep_label-IsStrip left row tlen stop (q + 1) before _ kept)
            | inr full ↦ rw (more, full) kept
          ]
    ]

strip_command-IsStrip :
    (row : Memory) (tlen ce : ℕ) (before : Memory) (s : Strip)
    → IsStrip tlen before s
    → IsStrip tlen before (strip_command row tlen ce s)
unfolding strip_command strip_link
strip_command-IsStrip row tlen ce before s ok =
    elim (Bool-cases
      (not (row (s.k + 1) == 0x46 || row (s.k + 1) == 0x42) && row (s.k + 1) == 0x5B)) [
        | inr skipped ↦ rw skipped (at-IsStrip tlen _ before s ok)
        | inl link ↦
            rw link
              (at-IsStrip tlen _ before _ (keep_label-IsStrip _ row tlen _ (s.k + 2) before s ok))
      ]

strip_step-IsStrip :
    (row : Memory) (tlen ce : ℕ) (before : Memory) (s : Strip)
    → IsStrip tlen before s
    → s.n < 255
    → IsStrip tlen before (strip_step row tlen ce s)
unfolding strip_step
strip_step-IsStrip row tlen ce before s ok short = elim (Bool-cases (is_command row ce s.k)) [
  | inr text ↦
      rw text (at-IsStrip tlen (s.k + 1) before _ (keep-IsStrip tlen (row s.k) before s ok short))
  | inl command ↦ rw command (strip_command-IsStrip row tlen ce before s ok)
]

strip_loop-IsStrip :
    (left : ℕ) (row : Memory) (tlen ce : ℕ) (before : Memory) (s : Strip)
    → IsStrip tlen before s
    → IsStrip tlen before (strip_loop left row tlen ce s)
unfolding strip_loop
strip_loop-IsStrip zero row tlen ce before s ok = ok
strip_loop-IsStrip (suc left) row tlen ce before s ok =
    elim (Bool-cases (ltb s.k ce && ltb s.n 255)) [
      | inr ended ↦ rw ended ok
      | inl more ↦
          let short : s.n < 255 = ground (arith, more) in
          elim (Bool-cases (is_command row ce s.k || ltb (tlen + s.n) 1024)) [
            | inl room ↦
                rw (more, room)
                  (strip_loop-IsStrip left row tlen ce before _
                    (strip_step-IsStrip row tlen ce before s ok short))
            | inr full ↦ rw (more, full) (keep-IsStrip tlen (row s.k) before s ok short)
          ]
    ]

-- The cells below `bound` lie in the bytes that are in use.
unfoldable pub Placed : ℕ → TableState → Type 0
Placed bound t = (k : ℕ) → k < bound → get_or t.cell_off k 0 + get_or t.cell_len k 0 ≤ t.tlen

-- A table whose arrays have their sizes and whose first `bound` cells are in the buffer.
pub record IsFilled (bound : ℕ) (t : TableState) : Type 0 where
  pub widths : length t.col_w ≡ 6
  pub offs : length t.cell_off ≡ 96
  pub lens : length t.cell_len ≡ 96
  pub full : t.tlen ≤ 1024
  pub placed : Placed bound t

get_or-set :
    (xs : List ℕ) (i v j : ℕ)
    → i < length xs
    → get_or (set xs i v) j 0 ≡ (if i == j then v else get_or xs j 0)
get_or-set [] i v j h = absurd (omega arith)
get_or-set (x ∷ xs) zero v zero h = ground arith
get_or-set (x ∷ xs) zero v (suc j) h = ground arith
get_or-set (x ∷ xs) (suc i) v zero h = ground arith
get_or-set (x ∷ xs) (suc i) v (suc j) h = ground (arith, get_or-set xs i v j (omega arith))

-- A cell with nothing in it extends the bound.
clear_cell-IsFilled :
    (i : ℕ) (t : TableState)
    → i < 96
    → IsFilled i t
    → IsFilled (suc i) (record t { cell_off = set t.cell_off i 0; cell_len = set t.cell_len i 0 })
unfolding Placed
clear_cell-IsFilled i t h ok = record {
  widths = ok.widths;
  offs = length-set t.cell_off i 0 ∙ ok.offs;
  lens = length-set t.cell_len i 0 ∙ ok.lens;
  full = ok.full;
  placed = λ k below.
      let off = get_or-set t.cell_off i 0 k (omega (arith, ok.offs)) in
      let len = get_or-set t.cell_len i 0 k (omega (arith, ok.lens)) in
      rw (off, len) (ground (arith, ok.placed k, below));
}

pub clear_cells-IsFilled :
    (left r k : ℕ) (t : TableState)
    → cell_index r k + left ≤ 96
    → IsFilled (cell_index r k) t
    → IsFilled (cell_index r k + left) (clear_cells left r k t)
unfolding clear_cells
clear_cells-IsFilled zero r k t h ok =
    let same : cell_index r k + 0 ≡ cell_index r k = omega arith in rw same ok
clear_cells-IsFilled (suc left) r k t h ok =
    let next = clear_cell-IsFilled (cell_index r k) t (omega arith) ok in
    let further : suc (cell_index r k) ≡ cell_index r (k + 1) = omega arith in
    let same : cell_index r k + suc left ≡ cell_index r (k + 1) + left = omega arith in
    rw same (clear_cells-IsFilled left r (k + 1) _ (omega arith) (rw (sym further) next))

pub clear_cells-keeps :
    (left r k : ℕ) (t : TableState)
    → let q = clear_cells left r k t in
      (q.tbuf ≡ t.tbuf) × (q.tlen ≡ t.tlen) × (q.t_rows ≡ t.t_rows) × (q.table_cols ≡ t.table_cols)
unfolding clear_cells
clear_cells-keeps zero r k t = (refl, refl, refl, refl)
clear_cells-keeps (suc left) r k t = clear_cells-keeps left r (k + 1) _

-- A cell put behind the bytes in use.
pub add_cell-IsFilled :
    (row : Memory) (r col i cell bound : ℕ) (t : TableState)
    → cell_index r col < 96
    → IsFilled bound t
    → let q = add_cell row r col i cell t in
      IsFilled bound q
      × Keeps t.tlen t.tbuf q.tbuf
      × (t.tlen ≤ q.tlen)
      × (q.t_rows ≡ t.t_rows)
      × (q.table_cols ≡ t.table_cols)
unfolding add_cell Placed
add_cell-IsFilled row r col i cell bound t h ok =
    let cs = skip_spaces (cell - i) row cell i in
    let ce = trim_cell (cell - cs) row cs cell in
    let first : Strip = record { k = cs; n = 0; tbuf = t.tbuf; over = t.table_overflowed } in
    let begun : IsStrip t.tlen t.tbuf first = record {
      room = omega (arith, ok.full);
      short = omega arith;
      kept = unfold Keeps in λ j _. refl;
    } in
    let s = strip_loop (ce - cs) row t.tlen ce first in
    let done : IsStrip t.tlen t.tbuf s =
      strip_loop-IsStrip (ce - cs) row t.tlen ce t.tbuf first begun in
    let longer : u16 (t.tlen + s.n) ≡ t.tlen + s.n = omega (arith, done.room) in
    let w = u8 (cells (from s.tbuf t.tlen) s.n) in
    let filled : IsFilled bound (add_cell row r col i cell t) = record {
      widths = elim (Bool-cases (ltb 0 s.n && ltb (get_or t.col_w col 0) w)) [
        | inl wider ↦ rw wider (length-set t.col_w col w ∙ ok.widths)
        | inr same ↦ rw same ok.widths
      ];
      offs = length-set t.cell_off (cell_index r col) t.tlen ∙ ok.offs;
      lens = length-set t.cell_len (cell_index r col) (u8 s.n) ∙ ok.lens;
      full = omega (arith, longer, done.room);
      placed = λ k below.
          let off = get_or-set t.cell_off (cell_index r col) t.tlen k (omega (arith, ok.offs, h)) in
          let len =
            get_or-set t.cell_len (cell_index r col) (u8 s.n) k (omega (arith, ok.lens, h)) in
          rw (off, len) (ground (arith, ok.placed k below, longer, done.short));
    } in
    (filled, done.kept, omega (arith, longer), refl, refl)
