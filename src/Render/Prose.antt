-- ===== src/Render/Prose.antt =====
-- A run of prose: its words stay between the left edge and the right margin.
use thicket_firmware.Base.{
  ℕ, zero, suc, ◌+◌, ◌-◌, ◌*◌, ◌≤◌, ◌<◌, ◌≡◌, ◌⊎◌, ap₂, ◌∙◌, arith, Bool, true, false, ◌&&◌, [],
  ◌++◌, ltb, ◌==◌, if◌then◌else◌, u16, All, All-append, Bool-cases, inl, inr,
}
use thicket_firmware.Base.Memory.{Memory}
use thicket_firmware.Lcd.Text.{Fonts}
use thicket_firmware.Render.State.{PageRenderer}
use thicket_firmware.Render.Page.{left_edge, cells, cells_from}
use thicket_firmware.Render.Faces.{advance, paint_bg}
use thicket_firmware.Render.Run.{
  is_space, from, word_start, word_stop, underline_calls, lead, emit_word, run_loop,
}
use thicket_firmware.Render.StartsInside.{StartsInside, IsRow}
use thicket_firmware.Render.Window.{left_edge-le}
use thicket_firmware.Render.Words.{
  word-place, cells_from-from, cells_from-le, cells_from-positive, mul-le-mul,
}
use thicket_firmware.Render.Wrapping.{
  advance-range, paint_bg-StartsInside, underline_calls-StartsInside,
}
use thicket_firmware.Render.Placed.{
  IsPlaced, newline-IsPlaced, newline-x, moved-IsPlaced, word_loop-IsPlaced, hard_loop-IsPlaced,
}

lead_calls-StartsInside :
    (lead_w : ℕ) (invert : Bool) (p : PageRenderer)
    → IsRow p
    → p.x + lead_w ≤ 398
    → All StartsInside (
        (if p.has_bg then paint_bg p.x lead_w p.bg_luma p else [])
        ++ underline_calls p.x lead_w invert p)
lead_calls-StartsInside lead_w invert p row fits =
    let ruled = underline_calls-StartsInside p.x lead_w invert p fits in
    elim (Bool-cases p.has_bg) [
      | inl textured ↦ simp textured (
          All-append StartsInside _ _ (paint_bg-StartsInside p.x lead_w p.bg_luma p row fits) ruled)
      | inr plain ↦ simp plain ruled
    ]

-- The spaces in front of a word that fits a row leave room for it.
lead-IsPlaced :
    (lead_w word_w : ℕ) (invert : Bool) (le adv : ℕ) (p : PageRenderer)
    → IsPlaced le adv p
    → le ≤ p.x
    → p.x ≤ 398
    → le + word_w ≤ 398
    → (lead_w ≡ 0) ⊎ (le < p.x)
    → let q = lead lead_w word_w invert p in IsPlaced le adv q × (le ≤ q.x) × (q.x + word_w ≤ 398)
unfolding lead
lead-IsPlaced lead_w word_w invert le adv p ok low high fits start =
    elim (Bool-cases (ltb 398 (p.x + lead_w + word_w) && ltb (left_edge p) p.x)) [
      | inl over ↦ rw over (
        newline-IsPlaced le adv p ok,
        omega (arith, newline-x p, ok.edge),
        omega (arith, newline-x p, ok.edge),
      )
      | inr stay ↦ elim (Bool-cases (lead_w == 0)) [
        | inl none_there ↦
            rw (stay, none_there) (ok, low, ground (arith, stay, none_there, ok.edge))
        | inr some_there ↦
            let room : p.x + lead_w + word_w ≤ 398 =
              ground (arith, stay, some_there, start, ok.edge) in
            let asked = lead_calls-StartsInside lead_w invert p ok.row (omega (arith, room)) in
            rw (stay, some_there)
              (
                moved-IsPlaced le adv (u16 (p.x + lead_w)) true _ p ok asked,
                omega (arith, room),
                omega (arith, room),
              )
      ]
    ]

-- A word of a run, with a pen inside the margins that is right of the left edge where spaces stand
-- in front of the word.
emit_word-IsPlaced :
    (fonts : Fonts) (t : Memory) (n : ℕ) (invert : Bool) (i le adv : ℕ) (p : PageRenderer)
    → IsPlaced le adv p
    → le ≤ p.x
    → p.x ≤ 398
    → i < n
    → n ≤ 5458
    → (is_space (t i) ≡ false) ⊎ (le < p.x)
    → let q = emit_word fonts t n invert i p in
      IsPlaced le adv q × (le ≤ q.x) × (q.x ≤ 398) × (word_stop t n i < n → le < q.x)
unfolding emit_word cells
emit_word-IsPlaced fonts t n invert i le adv p ok low high more short start =
    let sp = word_start t n i in
    let w = word_stop t n i in
    let (from_i, in_run, word, past, further, inner, at_once) = word-place t n i more in
    let cs = cells_from (w - sp) t w sp in
    let word_w = u16 (cells (from t sp) (w - sp) * advance p) in
    let lead_w = u16 ((sp - i) * advance p) in
    let wide = advance-range p in
    let same : cells_from (w - sp) (from t sp) (w - sp) 0 ≡ cs =
      cells_from-from (w - sp) t sp (w - sp) 0
      ∙ ap₂ (λ a b. cells_from (w - sp) t a b) (omega (arith, word)) (omega arith) in
    let few : cs ≤ w - sp = cells_from-le (w - sp) t w sp in
    let narrow : cs * adv ≤ 5461 * 12 =
      mul-le-mul cs 5461 adv 12 (omega (arith, few, past)) (omega (arith, wide.1, ok.wide)) in
    let exact : word_w ≡ cs * adv = rw (same, ok.wide) (omega (arith, narrow)) in
    elim (Bool-cases (ltb (396 - (left_edge p - 2)) word_w)) [
      | inl long ↦
          let broken = hard_loop-IsPlaced (w - i) fonts t w invert i le adv p ok low high in
          rw long
            (broken.0, broken.1, broken.2, λ _. broken.3 (inr (further, omega (arith, further))))
      | inr fits ↦
          let fits_row : le + word_w ≤ 398 = ground (arith, fits, ok.edge, left_edge-le p) in
          let lead_first : (lead_w ≡ 0) ⊎ (le < p.x) = elim start [
            | inl letter ↦ inl (rw (at_once letter) ground arith)
            | inr right_of ↦ inr right_of
          ] in
          let led = lead-IsPlaced lead_w word_w invert le adv p ok low high fits_row lead_first in
          let q = lead lead_w word_w invert p in
          let drawn =
            word_loop-IsPlaced (w - sp) fonts t w invert sp le adv q led.0
              (omega (arith, led.2, exact)) in
          let some_cell : w < n → 6 ≤ cs * adv = λ h.
            mul-le-mul 1 cs 6 adv
              (cells_from-positive (w - sp) t w sp (inner h) (omega (arith, inner h)))
              (omega (arith, wide.0, ok.wide)) in
          rw fits (
            drawn.0,
            omega (arith, drawn.1, led.1),
            omega (arith, drawn.1, led.2, exact),
            λ h. omega (arith, drawn.1, led.1, some_cell h),
          )
    ]

pub run_loop-IsPlaced :
    (left : ℕ) (fonts : Fonts) (t : Memory) (n : ℕ) (invert : Bool) (i le adv : ℕ)
    (p : PageRenderer)
    → IsPlaced le adv p
    → le ≤ p.x
    → p.x ≤ 398
    → n ≤ 5458
    → (i < n → (is_space (t i) ≡ false) ⊎ (le < p.x))
    → let q = run_loop left fonts t n invert i p in IsPlaced le adv q × (le ≤ q.x) × (q.x ≤ 398)
unfolding run_loop
run_loop-IsPlaced zero fonts t n invert i le adv p ok low high short start = (ok, low, high)
run_loop-IsPlaced (suc left) fonts t n invert i le adv p ok low high short start =
    elim (Bool-cases (ltb i n)) [
      | inr ended ↦ rw ended (ok, low, high)
      | inl more ↦
          let inside : i < n = ground (arith, more) in
          let (set, low', high', further) =
            emit_word-IsPlaced fonts t n invert i le adv p ok low high inside short
              (start inside) in
          let rest =
            run_loop-IsPlaced left fonts t n invert (word_stop t n i) le adv
              (emit_word fonts t n invert i p) set low' high' short (λ h. inr (further h)) in
          rw more rest
    ]
