-- ===== src/Desktop/Navigate.antt =====
-- Moving in the browser: back after a followed link, the cycle of the focus, the scroll.
use native.Mathlib.Nat.{div-le_of_le-mul, mul-div_cancel}
use thicket_firmware.Base.{
  ℕ, zero, suc, ◌+◌, ◌-◌, ◌*◌, ◌/◌, ◌%◌, ◌≤◌, ◌<◌, ◌≡◌, ◌⊎◌, refl, ◌∙◌, arith, Bool, true, false,
  Option, none, some, [], ◌∷◌, ltb, ◌==◌, if◌then◌else◌, Bool-cases, Option-cases, inl, inr, ℤ, pos,
  negsuc, ◌+ℤ◌,
}
use thicket_firmware.Lcd.SharpLcd.{lcd_height}
use thicket_firmware.App.Platform.{Bytes}
use thicket_firmware.Desktop.Resolve.{resolve}
use thicket_firmware.Desktop.Browser.{
  Browser, Host, clamp_scroll, scroll_by, scroll_bottom, next_focus, commit_page, back_page, back,
  scroll_pct, fetch_target, open_held, follow_path, follow_target,
}

-- What following a link comes to: a new page over the old one, or nothing but the status.
record Entered (br : Browser) (t : Browser) : Type 0 where
  stack : t.stack ≡ record br.cur { focus = none } ∷ br.stack

record Stayed (br : Browser) (t : Browser) : Type 0 where
  cur : t.cur ≡ br.cur
  stack : t.stack ≡ br.stack
  frame : t.frame ≡ br.frame

abbrev Follows : Browser → Bool × Browser → Type 0
Follows br r = ((r.0 ≡ true) × Entered br r.1) ⊎ ((r.0 ≡ false) × Stayed br r.1)

module _ (h : Host) where
  open_held-Follows : (target path : Bytes) (br : Browser) → Follows br (open_held h target path br)
  unfolding commit_page open_held
  open_held-Follows target path br = elim (Option-cases (h.read_file path)) [
    | inl unread ↦
        rw (unread, open_held) (inr (refl, record { cur = refl; stack = refl; frame = refl }))
    | inr (src, read) ↦ rw (read, open_held) (inl (refl, record { stack = refl }))
  ]

  fetch_target-Follows :
      (target : Bytes) (o : Option (Bytes → Option Bytes)) (br : Browser)
      → Follows br (fetch_target h target o br)
  unfolding fetch_target commit_page
  fetch_target-Follows target none br =
      inr (refl, record { cur = refl; stack = refl; frame = refl })
  fetch_target-Follows target (some fetch) br = elim (Option-cases (fetch target)) [
    | inl failed ↦
        rw (failed, fetch_target) (inr (refl, record { cur = refl; stack = refl; frame = refl }))
    | inr (page, got) ↦ rw (got, fetch_target) (inl (refl, record { stack = refl }))
  ]

  follow_path-Follows :
      (target path : Bytes) (br : Browser) → Follows br (follow_path h target path br)
  unfolding follow_path
  follow_path-Follows target [] br = fetch_target-Follows target h.live_fetch br
  follow_path-Follows target (ch ∷ rest) br = open_held-Follows target (ch ∷ rest) br

  follow_target-Follows : (target : Bytes) (br : Browser) → Follows br (follow_target h target br)
  unfolding follow_target
  follow_target-Follows target br =
      follow_path-Follows target (resolve h.file_exists target br.cur.dir br.root) br

  -- Where a link was followed, then, whatever was done on the new page with the back stack kept,
  -- going back succeeds and gives the page that the link was on, at its scroll, with the focus
  -- dropped, and the stack below it. Where following failed, page, stack and frame are as they
  -- were, whether no file is held, the file cannot be read, or the fetch fails.
  pub back-follow_target :
      (target : Bytes) (br later : Browser)
      → later.stack ≡ (follow_target h target br).1.stack
      → (((follow_target h target br).0 ≡ true)
          × ((back later).0 ≡ true)
          × ((back later).1.cur ≡ record br.cur { focus = none })
          × ((back later).1.stack ≡ br.stack)
          × ((back later).1.last_scroll ≡ br.cur.scroll))
        ⊎ (((follow_target h target br).0 ≡ false)
            × ((follow_target h target br).1.cur ≡ br.cur)
            × ((follow_target h target br).1.stack ≡ br.stack)
            × ((follow_target h target br).1.frame ≡ br.frame))
  unfolding back back_page
  back-follow_target target br later kept = elim (follow_target-Follows target br) [
    | inl (went, entered) ↦
        let top = kept ∙ entered.stack in
        inl (went, rw top refl, rw top refl, rw top refl, rw top refl)
    | inr (failed, stayed) ↦ inr (failed, stayed.cur, stayed.stack, stayed.frame)
  ]

mod_wrap : (x n : ℕ) → x < n → (x + n) % n ≡ x
mod_wrap x n h = grind arith

mod_below : (x n : ℕ) → x < n → x % n ≡ x
mod_below x n h = grind arith

mod_twice : (n : ℕ) → 0 < n → (n + n) % n ≡ 0
mod_twice n h = grind arith

next_focus-forward :
    (n i : ℕ) → i < n → next_focus true n (some i) ≡ (if ltb (i + 1) n then i + 1 else 0)
unfolding next_focus
next_focus-forward n i h = elim (Bool-cases (ltb (i + 1) n)) [
  | inl inside ↦ rw inside (mod_wrap (i + 1) n (ground arith))
  | inr last ↦ let e : i + 1 ≡ n = ground arith in rw last (rw e (mod_twice n (omega arith)))
]

next_focus-backward :
    (n i : ℕ) → i < n → next_focus false n (some i) ≡ (if i == 0 then n - 1 else i - 1)
unfolding next_focus
next_focus-backward n zero h =
    let e : 0 + n - 1 ≡ n - 1 = omega arith in rw e (mod_below (n - 1) n (omega arith))
next_focus-backward n (suc i) h =
    let e : suc i + n - 1 ≡ i + n = omega arith in rw e (mod_wrap i n (omega arith) ∙ ground arith)

-- On a frame with links, of which one has the focus: the next and the one before are links of the
-- frame, and the one before the next, and the next after the one before, is the link itself.
pub next_focus-inverse :
    (n i : ℕ)
    → i < n
    → (next_focus true n (some i) < n)
      × (next_focus false n (some i) < n)
      × (next_focus false n (some (next_focus true n (some i))) ≡ i)
      × (next_focus true n (some (next_focus false n (some i))) ≡ i)
next_focus-inverse n i h =
    let f = next_focus-forward n i h in
    let b = next_focus-backward n i h in
    let next : next_focus true n (some i) < n = ground (arith, f) in
    let before : next_focus false n (some i) < n = ground (arith, b) in
    (
      next,
      before,
      next_focus-backward n (next_focus true n (some i)) next ∙ ground (arith, f),
      next_focus-forward n (next_focus false n (some i)) before ∙ ground (arith, b),
    )

percent : (s span : ℕ) → 0 < span → s ≤ span → 100 * s / span ≤ 100
percent s span h k = div-le_of_le-mul span (omega arith)

clamp_scroll-le : (d : ℤ) (height : ℕ) → clamp_scroll d height ≤ height - lcd_height
unfolding clamp_scroll
clamp_scroll-le (pos n) height = omega arith
clamp_scroll-le (negsuc n) height = omega arith

share-le : (s span : ℕ) → s ≤ span → (if span == 0 then 100 else 100 * s / span) ≤ 100
share-le s span h = elim (Bool-cases (span == 0)) [
  | inl e ↦ rw e (omega arith)
  | inr e ↦ rw e (percent s span (ground arith) h)
]

share-whole : (span : ℕ) → (if span == 0 then 100 else 100 * span / span) ≡ 100
share-whole span = elim (Bool-cases (span == 0)) [
  | inl e ↦ rw e refl
  | inr e ↦ rw e (mul-div_cancel 100 (ground arith))
]

bottom : (s height : ℕ) → clamp_scroll (pos s +ℤ pos height) height ≡ height - lcd_height
unfolding clamp_scroll ◌+ℤ◌
bottom s height = ground arith

-- After any scroll, up or down, the page is not past its end, nor is the share that is shown past
-- 100; at the bottom it is 100, whatever the height.
pub scroll_by-scroll_pct :
    (d : ℤ) (br : Browser)
    → ((scroll_by d br).cur.scroll ≤ br.frame.height - lcd_height)
      × (scroll_pct (scroll_by d br) ≤ 100)
      × (scroll_pct (scroll_bottom br) ≡ 100)
unfolding scroll_by scroll_pct scroll_bottom
scroll_by-scroll_pct d br =
    let s = pos br.cur.scroll +ℤ d in
    let within = clamp_scroll-le s br.frame.height in
    (
      within,
      share-le (clamp_scroll s br.frame.height) (br.frame.height - lcd_height) within,
      rw (bottom br.cur.scroll br.frame.height) (share-whole (br.frame.height - lcd_height)),
    )
