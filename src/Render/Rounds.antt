-- ===== src/Render/Rounds.antt =====
-- The loops of a run and of the rows end by themselves: more rounds than there are bytes change
-- nothing.
use thicket_firmware.Base.{
  ℕ, zero, suc, ◌+◌, ◌≤◌, ◌≡◌, refl, arith, Bool, ltb, Bool-cases, inl, inr,
}
use thicket_firmware.Base.Memory.{Memory}
use thicket_firmware.Lcd.Text.{Fonts}
use thicket_firmware.Render.State.{PageRenderer}
use thicket_firmware.Render.Page.{seq_len}
use thicket_firmware.Render.Run.{
  skip_spaces, word_end, word_stop, hard_glyph, hard_loop, word_glyph, word_loop, emit_word,
  run_loop,
}
use thicket_firmware.Render.Words.{seq_len-range, word-place}

rounds_suc : (left more : ℕ) → suc left + more ≡ suc (left + more)
rounds_suc left more = omega arith

skip_spaces-enough :
    (left more : ℕ) (t : Memory) (n sp : ℕ)
    → n ≤ sp + left
    → skip_spaces (left + more) t n sp ≡ skip_spaces left t n sp
unfolding skip_spaces
skip_spaces-enough zero zero t n sp h = refl
skip_spaces-enough zero (suc more) t n sp h = ground arith
skip_spaces-enough (suc left) more t n sp h =
    rw (rounds_suc left more)
      (ground (arith, skip_spaces-enough left more t n (sp + 1) (omega arith)))

word_end-enough :
    (left more : ℕ) (t : Memory) (n w : ℕ)
    → n ≤ w + left
    → word_end (left + more) t n w ≡ word_end left t n w
unfolding word_end
word_end-enough zero zero t n w h = refl
word_end-enough zero (suc more) t n w h = ground arith
word_end-enough (suc left) more t n w h = rw (rounds_suc left more) (
    ground (
      arith,
      word_end-enough left more t n (w + seq_len (t w)) (omega (arith, seq_len-range (t w))),
    ))

hard_loop-enough :
    (left more : ℕ) (fonts : Fonts) (t : Memory) (w : ℕ) (invert : Bool) (k : ℕ) (p : PageRenderer)
    → w ≤ k + left
    → hard_loop (left + more) fonts t w invert k p ≡ hard_loop left fonts t w invert k p
unfolding hard_loop
hard_loop-enough zero zero fonts t w invert k p h = refl
hard_loop-enough zero (suc more) fonts t w invert k p h = ground arith
hard_loop-enough (suc left) more fonts t w invert k p h = rw (rounds_suc left more) (
    ground (
      arith,
      hard_loop-enough left more fonts t w invert (k + seq_len (t k))
          (hard_glyph fonts t invert k p) (omega (arith, seq_len-range (t k))),
    ))

word_loop-enough :
    (left more : ℕ) (fonts : Fonts) (t : Memory) (w : ℕ) (invert : Bool) (k : ℕ) (p : PageRenderer)
    → w ≤ k + left
    → word_loop (left + more) fonts t w invert k p ≡ word_loop left fonts t w invert k p
unfolding word_loop
word_loop-enough zero zero fonts t w invert k p h = refl
word_loop-enough zero (suc more) fonts t w invert k p h = ground arith
word_loop-enough (suc left) more fonts t w invert k p h = rw (rounds_suc left more) (
    ground (
      arith,
      word_loop-enough left more fonts t w invert (k + seq_len (t k))
          (word_glyph fonts t invert k p) (omega (arith, seq_len-range (t k))),
    ))

run_loop-enough :
    (left more : ℕ) (fonts : Fonts) (t : Memory) (n : ℕ) (invert : Bool) (i : ℕ) (p : PageRenderer)
    → n ≤ i + left
    → run_loop (left + more) fonts t n invert i p ≡ run_loop left fonts t n invert i p
unfolding run_loop
run_loop-enough zero zero fonts t n invert i p h = refl
run_loop-enough zero (suc more) fonts t n invert i p h = ground arith
run_loop-enough (suc left) more fonts t n invert i p h =
    rw (rounds_suc left more) (elim (Bool-cases (ltb i n)) [
      | inr ended ↦ rw ended refl
      | inl inside ↦
          let place = word-place t n i (ground (arith, inside)) in
          rw inside (
            run_loop-enough left more fonts t n invert (word_stop t n i)
              (emit_word fonts t n invert i p) (omega (arith, place.4)))
    ])

-- Every loop of a run of prose ends by itself: the walk over its words, the two searches for the
-- ends of a word, and the two walks over a word's glyphs. Once a loop has as many rounds as bytes
-- are left, further rounds change nothing.
pub run_loops-enough :
    (left more : ℕ) (fonts : Fonts) (t : Memory) (n : ℕ) (invert : Bool) (i : ℕ) (p : PageRenderer)
    → n ≤ i + left
    → (run_loop (left + more) fonts t n invert i p ≡ run_loop left fonts t n invert i p)
      × (skip_spaces (left + more) t n i ≡ skip_spaces left t n i)
      × (word_end (left + more) t n i ≡ word_end left t n i)
      × (hard_loop (left + more) fonts t n invert i p ≡ hard_loop left fonts t n invert i p)
      × (word_loop (left + more) fonts t n invert i p ≡ word_loop left fonts t n invert i p)
run_loops-enough left more fonts t n invert i p h = (
  run_loop-enough left more fonts t n invert i p h,
  skip_spaces-enough left more t n i h,
  word_end-enough left more t n i h,
  hard_loop-enough left more fonts t n invert i p h,
  word_loop-enough left more fonts t n invert i p h,
)
