-- ===== src/Render/Literal.antt =====
-- A preformatted line: where its pen goes, and what it asks of the display.
use thicket_firmware.Base.{
  ℕ, zero, suc, ◌+◌, ◌-◌, ◌*◌, ◌/◌, ◌≤◌, ◌<◌, ◌≡◌, refl, sym, arith, Bool, true, false, not, [],
  ◌∷◌, ◌++◌, append_assoc, append-nil, ltb, if◌then◌else◌, u16, Bool-cases, inl, inr, min, ap, ◌∙◌,
}
use thicket_firmware.Base.Memory.{Memory}
use thicket_firmware.Lcd.Text.{Fonts}
use thicket_firmware.Render.State.{Call, PageRenderer}
use thicket_firmware.Render.Page.{
  glyph, glyph_cp, height, left_edge, row_visible, screen_y, count_missing, clip_mark,
  literal_glyph, literal_loop, emit_literal, cells_from, cells, seq_len,
}
use thicket_firmware.Render.StartsInside.{
  StartsInside, SameRow, IsRow, IsRow-same, count_missing-keeps, Adds, Adds-trans,
}
use thicket_firmware.Render.Window.{row_visible-screen_y}

clip_mark-StartsInside :
    (invert : Bool) (p : PageRenderer)
    → IsRow p
    → SameRow p (clip_mark invert p)
      × ((clip_mark invert p).x ≡ p.x)
      × Adds p.calls (clip_mark invert p).calls
unfolding clip_mark StartsInside
clip_mark-StartsInside invert p ok = elim (Bool-cases (row_visible p)) [
  | inr hidden ↦
      rw hidden ((refl, refl, refl, refl, refl), refl, ([], sym (append-nil p.calls), tt))
  | inl seen ↦
      let place = row_visible-screen_y p ok.y ok.scroll seen in
      rw seen (
        (refl, refl, refl, refl, refl),
        refl,
        (
          Call.rect_call 392 (screen_y p) 6 (height p) invert
              ∷ Call.text_call 392 (screen_y p) (0xC2 ∷ 0xBB ∷ []) (not invert)
              ∷ [],
          append_assoc p.calls _ _,
          ((omega arith, place.1, omega (arith, place.1, ok.tall)), ((omega arith, place.1), tt)),
        ),
      )
]

-- What a step of the line keeps, how far it moves the pen and what it adds.
abbrev pub Moves : ℕ → PageRenderer → PageRenderer → Type 0
Moves dx p q = SameRow p q × (q.x ≡ p.x + dx) × Adds p.calls q.calls

-- The place of a glyph, once a missing one is counted.
glyph_place :
    (p q : PageRenderer)
    → IsRow p
    → SameRow p q
    → q.x ≡ p.x
    → p.x + 6 ≤ 398
    → row_visible q ≡ true
    → (q.x + 6 ≤ 398) × (screen_y q < 240) × (screen_y q + height q ≤ 65535)
glyph_place p q ok same pen fits seen =
    let row = IsRow-same p q ok same in
    let place = row_visible-screen_y q row.y row.scroll seen in
    (omega arith, place.1, omega (arith, place.1, row.tall))

literal_glyph-StartsInside :
    (fonts : Fonts) (t : Memory) (invert : Bool) (k : ℕ) (p : PageRenderer)
    → IsRow p
    → p.x + 6 ≤ 398
    → Moves 6 p (literal_glyph fonts t invert k p)
unfolding literal_glyph StartsInside
literal_glyph-StartsInside fonts t false k p ok fits =
    let cp = glyph_cp t k in
    let q = count_missing fonts cp p in
    let keeps = count_missing-keeps fonts cp p in
    let next : u16 (q.x + 6) ≡ p.x + 6 = ground (arith, keeps.1) in
    elim (Bool-cases (row_visible q)) [
      | inr hidden ↦ rw hidden (keeps.0, next, ([], keeps.2 ∙ sym (append-nil p.calls), tt))
      | inl seen ↦
          let at = glyph_place p q ok keeps.0 keeps.1 fits seen in
          let text = Call.text_call q.x (screen_y q) (glyph t k) true in
          rw seen (keeps.0, next, (text ∷ [], ap (λ l. l ++ text ∷ []) keeps.2, ((at.0, at.1), tt)))
    ]
literal_glyph-StartsInside fonts t true k p ok fits =
    let cp = glyph_cp t k in
    let q = count_missing fonts cp p in
    let keeps = count_missing-keeps fonts cp p in
    let next : u16 (q.x + 6) ≡ p.x + 6 = ground (arith, keeps.1) in
    elim (Bool-cases (row_visible q)) [
      | inr hidden ↦ rw hidden (keeps.0, next, ([], keeps.2 ∙ sym (append-nil p.calls), tt))
      | inl seen ↦
          let at = glyph_place p q ok keeps.0 keeps.1 fits seen in
          let text = Call.text_call q.x (screen_y q) (glyph t k) false in
          let box = Call.rect_call q.x (screen_y q) 6 (height q) true in
          rw seen (
            keeps.0,
            next,
            (
              box ∷ text ∷ [],
              ap (λ l. (l ++ box ∷ []) ++ text ∷ []) keeps.2
                  ∙ append_assoc p.calls (box ∷ []) (text ∷ []),
              ((at.0, at.1, at.2), ((at.0, at.1), tt)),
            ),
          )
    ]

Moves-trans : (dx dy : ℕ) (p q r : PageRenderer) → Moves dx p q → Moves dy q r → Moves (dx + dy) p r
Moves-trans dx dy p q r (a, x, c) (b, y, d) = (
  (b.0 ∙ a.0, b.1 ∙ a.1, b.2 ∙ a.2, b.3 ∙ a.3, b.4 ∙ a.4),
  omega arith,
  Adds-trans p.calls q.calls r.calls c d,
)

-- The columns that are left of the margin for a pen.
abbrev pub columns : ℕ → ℕ
columns x = (398 - x) / 6

still : (p : PageRenderer) → Moves 0 p p
still p = ((refl, refl, refl, refl, refl), omega arith, ([], sym (append-nil p.calls), tt))

pub literal_loop-StartsInside :
    (left : ℕ) (fonts : Fonts) (t : Memory) (n : ℕ) (invert : Bool) (k : ℕ) (p : PageRenderer)
    → IsRow p
    → p.x ≤ 398
    → Moves
        (6 * min (cells_from left t n k) (columns p.x))
        p
        (literal_loop left fonts t n invert k p)
unfolding literal_loop cells_from
literal_loop-StartsInside zero fonts t n invert k p ok pen =
    let none_left : 6 * min 0 (columns p.x) ≡ 0 = omega arith in rw none_left (still p)
literal_loop-StartsInside (suc left) fonts t n invert k p ok pen = elim (Bool-cases (ltb k n)) [
  | inr ended ↦
      let none_left : 6 * min 0 (columns p.x) ≡ 0 = omega arith in rw (ended, none_left) (still p)
  | inl more ↦ elim (Bool-cases (ltb 398 (p.x + 6))) [
    | inl full ↦
        let mark = clip_mark-StartsInside invert p ok in
        let no_column : 6 * min (suc (cells_from left t n (k + seq_len (t k)))) (columns p.x) ≡ 0 =
          ground arith in
        rw (more, full, no_column) (mark.0, mark.1 ∙ omega arith, mark.2)
    | inr room ↦
        let first = literal_glyph-StartsInside fonts t invert k p ok (ground arith) in
        let q = literal_glyph fonts t invert k p in
        let rest =
          literal_loop-StartsInside left fonts t n invert (k + seq_len (t k)) q
            (IsRow-same p q ok first.0) (ground (arith, first.1)) in
        let cs = cells_from left t n (k + seq_len (t k)) in
        let further : 6 * min (suc cs) (columns p.x) ≡ 6 + 6 * min cs (columns q.x) =
          ground (arith, first.1) in
        let r = literal_loop left fonts t n invert (k + seq_len (t k)) q in
        rw (more, room, further) (Moves-trans 6 (6 * min cs (columns q.x)) p q r first rest)
  ]
]

-- Where the pen starts: a fresh row starts at its left edge.
abbrev pub start : PageRenderer → ℕ
start p = if p.row_open then p.x else left_edge p

-- On a row whose place and scroll offset are of 16 bits and whose height is below 65000, a
-- preformatted line whose pen starts inside the right margin moves the pen by a cell for each
-- codepoint, but only as far as whole cells fit before the margin, and stays on its row. All that
-- it asks of the display lies inside the right margin and begins on the panel, and every
-- rectangle among it ends within 16 bits.
pub emit_literal-StartsInside :
    (fonts : Fonts) (t : Memory) (n : ℕ) (invert : Bool) (p : PageRenderer)
    → IsRow p
    → start p ≤ 398
    → let q = emit_literal fonts t n invert p in
      (q.x ≡ start p + 6 * min (cells t n) (columns (start p))) × (q.y ≡ p.y) × Adds p.calls q.calls
unfolding emit_literal cells
emit_literal-StartsInside fonts t n invert p ok pen = elim (Bool-cases p.row_open) [
  | inl already ↦
      let moved = literal_loop-StartsInside n fonts t n invert 0 p ok (ground arith) in
      simp already (moved.1, moved.0.0, moved.2)
  | inr fresh ↦
      let q = record p { x = left_edge p; row_open = false } in
      let same = IsRow-same p q ok (refl, refl, refl, refl, refl) in
      let moved = literal_loop-StartsInside n fonts t n invert 0 q same (ground arith) in
      simp fresh (moved.1, moved.0.0, moved.2)
]

-- A byte or more for each round.
pub seq_len-positive : (c : ℕ) → 1 ≤ seq_len c
unfolding seq_len
seq_len-positive c = ground arith

-- The walk over a literal line ends by itself: once as many rounds are given as bytes are left,
-- further rounds change nothing.
pub literal_loop-enough :
    (left more : ℕ) (fonts : Fonts) (t : Memory) (n : ℕ) (invert : Bool) (k : ℕ) (p : PageRenderer)
    → n ≤ k + left
    → literal_loop (left + more) fonts t n invert k p ≡ literal_loop left fonts t n invert k p
unfolding literal_loop
literal_loop-enough zero zero fonts t n invert k p h = refl
literal_loop-enough zero (suc more) fonts t n invert k p h = ground arith
literal_loop-enough (suc left) more fonts t n invert k p h =
    let rounds : suc left + more ≡ suc (left + more) = omega arith in
    rw rounds (
      ground (
        arith,
        literal_loop-enough left more fonts t n invert (k + seq_len (t k))
            (literal_glyph fonts t invert k p) (omega (arith, seq_len-positive (t k))),
      ))
