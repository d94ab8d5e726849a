-- ===== src/Render/Links.antt =====
-- The boxes of links.
use thicket_firmware.Base.{
  ◌==◌, ◌^◌, ℕ, zero, suc, ◌+◌, ◌-◌, ◌*◌, ◌≤◌, ◌≡◌, ◌∙◌, refl, sym, arith, Bool, not, ◌&&◌, ◌||◌,
  List, [], ◌∷◌, ◌++◌, length, length-append, ltb, if◌then◌else◌, u16, Bool-cases, Option-cases,
  inl, inr,
}
use thicket_firmware.Base.Memory.{Memory}
use thicket_firmware.Lcd.Text.{Fonts, glyph_for}
use thicket_firmware.Render.State.{Style, LinkBox, PageRenderer}
use thicket_firmware.Render.Page.{
  margin_x, line_h, cells, seq_len, glyph_cp, left_edge, row_visible, screen_y, newline,
  wrap_if_needed, count_missing, clip_mark, literal_glyph, literal_loop, emit_literal,
}
use thicket_firmware.Render.Faces.{advance, note_face}
use thicket_firmware.Render.Run.{
  content_w, from, word_start, word_stop, hard_glyph, hard_loop, lead, word_glyph, word_loop,
  emit_word, run_loop, guarded, emit_run,
}
use thicket_firmware.Render.Events.{at_edge, with_depth, link_box, record_link, on_link}
use thicket_firmware.Render.Wrapping.{note_missing-counted, note_face-counted}

-- What a run keeps: the links.
abbrev SameLinks : PageRenderer → PageRenderer → Type 0
SameLinks p q = (q.links ≡ p.links) × (q.links_overflowed ≡ p.links_overflowed)

SameLinks-trans : (p q r : PageRenderer) → SameLinks p q → SameLinks q r → SameLinks p r
SameLinks-trans p q r (a, b) (c, d) = (c ∙ a, d ∙ b)

count_missing-links :
    (fonts : Fonts) (cp : ℕ) (p : PageRenderer) → SameLinks p (count_missing fonts cp p)
unfolding count_missing
count_missing-links fonts cp p =
    let (_, _, _, e) = note_missing-counted cp p in
    elim (Option-cases (glyph_for fonts cp)) [
      | inl hole ↦ rw (hole, count_missing, e) (refl, refl)
      | inr (g, there) ↦ ground (arith, there)
    ]

note_face-links : (fonts : Fonts) (cp : ℕ) (p : PageRenderer) → SameLinks p (note_face fonts cp p)
note_face-links fonts cp p = let (_, _, _, e) = note_face-counted fonts cp p in rw e (refl, refl)

clip_mark-links : (invert : Bool) (p : PageRenderer) → SameLinks p (clip_mark invert p)
unfolding clip_mark
clip_mark-links invert p = ground arith

literal_glyph-links :
    (fonts : Fonts) (t : Memory) (invert : Bool) (k : ℕ) (p : PageRenderer)
    → SameLinks p (literal_glyph fonts t invert k p)
unfolding literal_glyph
literal_glyph-links fonts t invert k p = ground (arith, count_missing-links fonts (glyph_cp t k) p)

literal_loop-links :
    (left : ℕ) (fonts : Fonts) (t : Memory) (n : ℕ) (invert : Bool) (k : ℕ) (p : PageRenderer)
    → SameLinks p (literal_loop left fonts t n invert k p)
unfolding literal_loop
literal_loop-links zero fonts t n invert k p = (refl, refl)
literal_loop-links (suc left) fonts t n invert k p =
    let first = literal_glyph-links fonts t invert k p in
    let rest =
      literal_loop-links left fonts t n invert (k + seq_len (t k))
        (literal_glyph fonts t invert k p) in
    ground (arith, first, rest, clip_mark-links invert p)

wrap_if_needed-links : (w : ℕ) (p : PageRenderer) → SameLinks p (wrap_if_needed w p)
unfolding wrap_if_needed newline
wrap_if_needed-links w p = ground arith

hard_glyph-links :
    (fonts : Fonts) (t : Memory) (invert : Bool) (k : ℕ) (p : PageRenderer)
    → SameLinks p (hard_glyph fonts t invert k p)
unfolding hard_glyph
hard_glyph-links fonts t invert k p =
    let q = wrap_if_needed (advance p) p in
    SameLinks-trans p q (note_face fonts (glyph_cp t k) q) (wrap_if_needed-links (advance p) p)
      (note_face-links fonts (glyph_cp t k) q)

hard_loop-links :
    (left : ℕ) (fonts : Fonts) (t : Memory) (w : ℕ) (invert : Bool) (k : ℕ) (p : PageRenderer)
    → SameLinks p (hard_loop left fonts t w invert k p)
unfolding hard_loop
hard_loop-links zero fonts t w invert k p = (refl, refl)
hard_loop-links (suc left) fonts t w invert k p =
    let first = hard_glyph-links fonts t invert k p in
    let rest =
      hard_loop-links left fonts t w invert (k + seq_len (t k)) (hard_glyph fonts t invert k p) in
    ground (arith, first, rest)

lead-links :
    (lead_w word_w : ℕ) (invert : Bool) (p : PageRenderer)
    → SameLinks p (lead lead_w word_w invert p)
unfolding lead newline
lead-links lead_w word_w invert p = ground arith

word_glyph-links :
    (fonts : Fonts) (t : Memory) (invert : Bool) (k : ℕ) (p : PageRenderer)
    → SameLinks p (word_glyph fonts t invert k p)
unfolding word_glyph
word_glyph-links fonts t invert k p = note_face-links fonts (glyph_cp t k) p

word_loop-links :
    (left : ℕ) (fonts : Fonts) (t : Memory) (w : ℕ) (invert : Bool) (k : ℕ) (p : PageRenderer)
    → SameLinks p (word_loop left fonts t w invert k p)
unfolding word_loop
word_loop-links zero fonts t w invert k p = (refl, refl)
word_loop-links (suc left) fonts t w invert k p =
    let first = word_glyph-links fonts t invert k p in
    let rest =
      word_loop-links left fonts t w invert (k + seq_len (t k)) (word_glyph fonts t invert k p) in
    ground (arith, first, rest)

emit_word-links :
    (fonts : Fonts) (t : Memory) (n : ℕ) (invert : Bool) (i : ℕ) (p : PageRenderer)
    → SameLinks p (emit_word fonts t n invert i p)
unfolding emit_word
emit_word-links fonts t n invert i p =
    let sp = word_start t n i in
    let w = word_stop t n i in
    let lead_w = u16 ((sp - i) * advance p) in
    let word_w = u16 (cells (from t sp) (w - sp) * advance p) in
    let q = lead lead_w word_w invert p in
    let broken = hard_loop-links (w - i) fonts t w invert i p in
    let drawn =
      SameLinks-trans p q (word_loop (w - sp) fonts t w invert sp q)
        (lead-links lead_w word_w invert p) (word_loop-links (w - sp) fonts t w invert sp q) in
    elim (Bool-cases (ltb (content_w - (left_edge p - margin_x)) word_w)) [
      | inl long ↦ rw long broken
      | inr fits ↦ rw fits drawn
    ]

run_loop-links :
    (left : ℕ) (fonts : Fonts) (t : Memory) (n : ℕ) (invert : Bool) (i : ℕ) (p : PageRenderer)
    → SameLinks p (run_loop left fonts t n invert i p)
unfolding run_loop
run_loop-links zero fonts t n invert i p = (refl, refl)
run_loop-links (suc left) fonts t n invert i p =
    let q = emit_word fonts t n invert i p in
    let rest =
      SameLinks-trans p q (run_loop left fonts t n invert (word_stop t n i) q)
        (emit_word-links fonts t n invert i p)
        (run_loop-links left fonts t n invert (word_stop t n i) q) in
    elim (Bool-cases (ltb i n)) [ inl more ↦ rw more rest | inr ended ↦ rw ended (refl, refl) ]

guarded-links : (p : PageRenderer) → SameLinks p (guarded p)
unfolding guarded
guarded-links p = ground arith

edged-links :
    (p : PageRenderer) → SameLinks p (if p.row_open then p else record p { x = left_edge p })
edged-links p = ground arith

emit_run-links :
    (fonts : Fonts) (t : Memory) (n : ℕ) (invert : Bool) (p : PageRenderer)
    → SameLinks p (emit_run fonts t n invert p)
unfolding emit_run emit_literal
emit_run-links fonts t n invert p =
    let q = if p.row_open then p else record p { x = left_edge p } in
    let prose =
      SameLinks-trans p (guarded p) (run_loop n fonts t n invert 0 (guarded p)) (guarded-links p)
        (run_loop-links n fonts t n invert 0 (guarded p)) in
    let preformatted =
      SameLinks-trans p q (literal_loop n fonts t n invert 0 q) (edged-links p)
        (literal_loop-links n fonts t n invert 0 q) in
    ground (arith, prose, preformatted)

at_edge-links : (p : PageRenderer) → SameLinks p (at_edge p)
unfolding at_edge
at_edge-links p = ground arith

-- What a link's box does to a table of links.
abbrev pub Boxed : List LinkBox → Bool → LinkBox → Bool → PageRenderer → Type 0
Boxed links over box seen q =
    let room = ltb (length links) 48 in
    (length q.links ≤ 48)
    × (q.links ≡ (if seen && room then links ++ box ∷ [] else links))
    × (q.links_overflowed ≡ over || (seen && not room))

record_link-Boxed :
    (x0 y0 : ℕ) (target : Memory) (target_len : ℕ) (r : PageRenderer)
    → length r.links ≤ 48
    → Boxed r.links r.links_overflowed
        (link_box x0 y0 target target_len r)
        (row_visible r)
        (record_link x0 y0 target target_len r)
unfolding record_link
record_link-Boxed x0 y0 target target_len r few =
    let longer = length-append r.links (link_box x0 y0 target target_len r ∷ []) in
    elim (Bool-cases (row_visible r)) [
      | inr hidden ↦ rw hidden (few, refl, ground arith)
      | inl seen ↦ elim (Bool-cases (ltb (length r.links) 48)) [
        | inl room ↦ rw (seen, room) (ground (arith, longer, room), refl, ground arith)
        | inr full ↦ rw (seen, full) (few, refl, ground arith)
      ]
    ]

Boxed-same :
    (links links' : List LinkBox) (over over' : Bool) (box : LinkBox) (seen : Bool)
    (q : PageRenderer)
    → links ≡ links'
    → over ≡ over'
    → Boxed links over box seen q
    → Boxed links' over' box seen q
Boxed-same links links' over over' box seen q e f boxed = rw (sym e, sym f) boxed

-- Where a page has at most 48 boxes of links, a link puts one behind them if its label ends on a
-- visible row and there is room for it, and changes no other box; there are at most 48 again. The
-- overflow is reported from then on if that row is visible and there is no room, and for no other
-- reason. The box begins where the label began, at the place that its row has on the panel, and is
-- as wide as the pen went to the right from there, if it did.
pub on_link-links :
    (fonts : Fonts) (label : Memory) (label_len : ℕ) (target : Memory) (target_len : ℕ) (s : Style)
    (p : PageRenderer)
    → length p.links ≤ 48
    → let begun = at_edge (with_depth s p) in
      let r = emit_run fonts label label_len begun.invert begun in
      let box : LinkBox = record {
        x = begun.x;
        y = u16 (begun.y + 2 ^ 16 - begun.scroll);
        w = u16 (if ltb begun.x r.x then r.x - begun.x else 0);
        h = if r.row_h == 0 then line_h r else r.row_h;
        target = target;
        target_len = u16 target_len;
      } in
      Boxed p.links p.links_overflowed box
        (row_visible r)
        (on_link fonts label label_len target target_len s p)
unfolding on_link screen_y
on_link-links fonts label label_len target target_len s p few =
    let begun = at_edge (with_depth s p) in
    let r = emit_run fonts label label_len begun.invert begun in
    let same =
      SameLinks-trans (with_depth s p) begun r (at_edge-links (with_depth s p))
        (emit_run-links fonts label label_len begun.invert begun) in
    let fewer : length r.links ≤ 48 = rw same.0 few in
    let boxed = record_link-Boxed begun.x (screen_y begun) target target_len r fewer in
    Boxed-same r.links p.links r.links_overflowed p.links_overflowed
      (link_box begun.x (screen_y begun) target target_len r) (row_visible r)
      (record_link begun.x (screen_y begun) target target_len r) same.0 same.1 boxed
