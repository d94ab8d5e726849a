-- ===== src/Desktop/Browser.antt =====
-- desktop/browser.cpp: the browser's page, back stack, scroll and focus, over the renderer of the
-- device. Files, the parser of pages and the fetch from the mesh are given.
use thicket_firmware.Base.{
  ℕ, zero, suc, ◌+◌, ◌-◌, ◌*◌, ◌/◌, ◌%◌, Bool, true, false, not, ◌&&◌, ◌||◌, Option, none, some,
  List, [], ◌∷◌, map, length, get_elem?, ltb, leb, ◌==◌, if◌then◌else◌, min, ◌>>=◌, ℤ, pos, negsuc,
  ◌+ℤ◌,
}
use thicket_firmware.Base.Memory.{Memory, slice}
use thicket_firmware.Lcd.SharpLcd.{SharpLcd, init, set_pixel, get_pixel, lcd_width, lcd_height}
use thicket_firmware.Lcd.Text.{Fonts}
use thicket_firmware.Render.State.{PageRenderer, LinkBox, page_renderer, string}
use thicket_firmware.Render.Compose.{compose_page}
use thicket_firmware.App.Platform.{Bytes}
use thicket_firmware.Desktop.Resolve.{dirname_of, resolve}

-- PageRenderer's DEFAULT_LEADING.
abbrev pub default_leading : ℕ
default_leading = 2

pub record Box : Type 0 where
  pub x : ℕ
  pub y : ℕ
  pub w : ℕ
  pub h : ℕ
  pub target : Bytes

pub record Frame : Type 0 where
  pub height : ℕ
  pub links : List Box

unfoldable pub box_of : LinkBox → Box
box_of b = record { x = b.x; y = b.y; w = b.w; h = b.h; target = slice b.target 0 b.target_len }

-- One pixel of `invert_box`, at `x` less one: columns left of the panel are skipped.
unfoldable pub flip : ℕ → ℕ → SharpLcd → SharpLcd
flip x1 y lcd =
    if x1 == 0 || leb lcd_width (x1 - 1)
    then lcd
    else set_pixel (x1 - 1) y (not (get_pixel (x1 - 1) y lcd)) lcd

-- `for (x = b.x - 1; x < b.x + b.w + 1; ++x)`, with `x + 1` as the counter, by the rounds left.
unfoldable pub flip_row : ℕ → ℕ → ℕ → SharpLcd → SharpLcd
flip_row zero x1 y lcd = lcd
flip_row (suc left) x1 y lcd = flip_row left (x1 + 1) y (flip x1 y lcd)

unfoldable pub flip_rows : ℕ → ℕ → Box → SharpLcd → SharpLcd
flip_rows zero y b lcd = lcd
flip_rows (suc left) y b lcd =
    flip_rows left (y + 1) b (if leb lcd_height y then lcd else flip_row (b.w + 2) b.x y lcd)

unfoldable pub invert_box : Box → SharpLcd → SharpLcd
invert_box b lcd = flip_rows b.h b.y b lcd

unfoldable pub clamp_scroll : ℤ → ℕ → ℕ
clamp_scroll (negsuc n) height = 0
clamp_scroll (pos n) height = min n (height - lcd_height)

pub record PageState : Type 0 where
  pub src : Bytes
  pub address : Bytes
  pub dir : Bytes
  pub scroll : ℕ
  pub focus : Option ℕ

unfoldable pub page_at : Bytes → Bytes → Bytes → PageState
page_at src address dir = record {
  src = src;
  address = address;
  dir = dir;
  scroll = 0;
  focus = none;
}

-- What the line of status says, with whole paths and without the reason of a failed fetch.
pub data Status : Type 0 where
  quiet no_links no_link_focused no_page : Status
  cannot_open opened followed fetched not_held fetch_failed back_to : Bytes → Status
  link : ℕ → ℕ → Bytes → Status

pub record Browser : Type 0 where
  pub root : Bytes
  pub cur : PageState
  pub frame : Frame
  pub stack : List PageState
  pub last_scroll : ℕ
  pub status : Status
  pub fb : Memory

unfoldable pub scroll_by : ℤ → Browser → Browser
scroll_by d br =
    let s = clamp_scroll (pos br.cur.scroll +ℤ d) br.frame.height in
    record br { cur = record br.cur { scroll = s; focus = none }; last_scroll = s }

unfoldable pub scroll_top : Browser → Browser
scroll_top br = record br { cur = record br.cur { scroll = 0; focus = none }; last_scroll = 0 }

unfoldable pub scroll_bottom : Browser → Browser
scroll_bottom br = scroll_by (pos br.frame.height) br

-- The link after the focused one, or before it; `n` is the number of links.
unfoldable pub next_focus : Bool → ℕ → Option ℕ → ℕ
next_focus true n none = 0
next_focus false n none = n - 1
next_focus true n (some i) = (i + 1 + n) % n
next_focus false n (some i) = (i + n - 1) % n

abbrev pub target_at : List Box → ℕ → Bytes
target_at [] i = []
target_at (b ∷ bs) zero = b.target
target_at (b ∷ bs) (suc i) = target_at bs i

unfoldable pub focus_cycle : Bool → Browser → Browser
focus_cycle forward br =
    let n = length br.frame.links in
    if n == 0
    then record br { cur = record br.cur { focus = none }; status = no_links }
    else (let i = next_focus forward n br.cur.focus in
        record br {
          cur = record br.cur { focus = some i };
          status = link (i + 1) n (target_at br.frame.links i);
        })

unfoldable pub set_focus : ℕ → Browser → Browser
set_focus i br =
    if ltb i (length br.frame.links)
    then record br { cur = record br.cur { focus = some i } }
    else br

unfoldable pub commit_page : Bytes → Bytes → Bytes → Browser → Browser
commit_page src address dir br = record br {
  stack = record br.cur { focus = none } ∷ br.stack;
  cur = page_at src address dir;
  last_scroll = 0;
}

unfoldable pub back_page : List PageState → Browser → Bool × Browser
back_page [] br = (false, record br { status = no_page })
back_page (p ∷ ps) br =
    (true, record br { cur = p; stack = ps; last_scroll = p.scroll; status = back_to p.address })

-- The top of the stack is the head of the list.
unfoldable pub back : Browser → Bool × Browser
back br = back_page br.stack br

unfoldable pub scroll_pct : Browser → ℕ
scroll_pct br =
    let span = br.frame.height - lcd_height in
    if span == 0 then 100 else (100 * br.cur.scroll) / span

-- `file_exists` and `read_file` of the host; the fetch of a build that has it.
pub record Host : Type 0 where
  pub file_exists : Bytes → Bool
  pub read_file : Bytes → Option Bytes
  pub live_fetch : Option (Bytes → Option Bytes)

module _ (h : Host) where
  unfoldable pub fetch_target : Bytes → Option (Bytes → Option Bytes) → Browser → Bool × Browser
  fetch_target target none br = (false, record br { status = not_held target })
  fetch_target target (some fetch) br = elim (fetch target) [
    | none ↦ (false, record br { status = fetch_failed target })
    | some page ↦ (true, record (commit_page page target [] br) { status = fetched target })
  ]

  unfoldable pub open_held : Bytes → Bytes → Browser → Bool × Browser
  open_held target path br = elim (h.read_file path) [
    | none ↦ (false, record br { status = cannot_open path })
    | some src ↦
        (true, record (commit_page src target (dirname_of path) br) { status = followed path })
  ]

  unfoldable pub follow_path : Bytes → Bytes → Browser → Bool × Browser
  follow_path target [] br = fetch_target target h.live_fetch br
  follow_path target (ch ∷ rest) br = open_held target (ch ∷ rest) br

  unfoldable pub follow_target : Bytes → Browser → Bool × Browser
  follow_target target br = follow_path target (resolve h.file_exists target br.cur.dir br.root) br

  unfoldable pub follow_link : Option Box → Browser → Bool × Browser
  follow_link none br = (false, record br { status = no_link_focused })
  follow_link (some b) br = follow_target b.target br

  unfoldable pub follow_focus : Browser → Bool × Browser
  follow_focus br = elim br.cur.focus [
    | none ↦ (false, record br { status = no_link_focused })
    | some i ↦ follow_link (get_elem? br.frame.links i) br
  ]

  -- The loop of `click_at` over the links from the `i`th on.
  unfoldable pub click_from : ℕ → List Box → ℕ → ℕ → Browser → Bool × Browser
  click_from i [] px py br = (false, br)
  click_from i (b ∷ bs) px py br =
      let rest = click_from (i + 1) bs px py br in
      if leb b.x px && ltb px (b.x + b.w) && leb b.y py && ltb py (b.y + b.h)
      then follow_target b.target (record br { cur = record br.cur { focus = some i } })
      else rest

  unfoldable pub click_at : ℕ → ℕ → Browser → Bool × Browser
  click_at px py br = click_from 0 br.frame.links px py br

module _ {S : Type 0} (fresh : S) (parse_line : Memory → ℕ → S → PageRenderer → S × PageRenderer)
    (fonts : Fonts) where
  -- `compose`: a new renderer and a new driver over the framebuffer. The fuel is that of
  -- `compose_page`.
  unfoldable pub compose : ℕ → Bytes → ℕ → Memory → Option (Frame × Memory)
  compose fuel src scroll fb =
      compose_page fresh parse_line fuel fonts (string src) (length src) scroll
        (page_renderer default_leading true true true) (init fb)
      >>= λ t. some (record { height = t.0; links = map box_of t.1.links }, t.2.fb)

  -- A focus past the links is dropped.
  unfoldable pub kept_focus : ℕ → Option ℕ → Option ℕ
  kept_focus n none = none
  kept_focus n (some i) = if leb n i then none else some i

  unfoldable pub show_focus : Browser → Browser
  show_focus br = elim br.cur.focus [
    | none ↦ br
    | some i ↦ elim (get_elem? br.frame.links i) [
      | none ↦ br
      | some b ↦ record br { fb = (invert_box b (init br.fb)).fb }
    ]
  ]

  abbrev pub with_frame : Frame × Memory → Browser → Browser
  with_frame f br = record br { frame = f.0; fb = f.1 }

  -- The second layout, where the scroll is not that of the last time.
  unfoldable pub compose_again : ℕ → Browser → Option Browser
  compose_again fuel br =
      if br.cur.scroll == br.last_scroll
      then some br
      else (compose fuel br.cur.src br.cur.scroll br.fb >>= λ f.
          some (with_frame f (record br { last_scroll = br.cur.scroll })))

  unfoldable pub recompose : ℕ → Browser → Option Browser
  recompose fuel br = compose fuel br.cur.src br.cur.scroll br.fb >>= λ f.
      let framed = with_frame f br in
      let s = clamp_scroll (pos br.cur.scroll) f.0.height in
      compose_again fuel (record framed { cur = record br.cur { scroll = s } }) >>= λ b. some (
        show_focus (record b {
          cur = record b.cur { focus = kept_focus (length b.frame.links) b.cur.focus };
        }))

  unfoldable pub open_path : Host → ℕ → Bytes → Browser → Option (Bool × Browser)
  open_path h fuel path br = elim (h.read_file path) [
    | none ↦ some (false, record br { status = cannot_open path })
    | some src ↦
        recompose fuel
          (record br { cur = page_at src path (dirname_of path); status = opened path })
        >>= λ b. some (true, b)
  ]
