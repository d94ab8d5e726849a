-- ===== src/Desktop/Tests.antt =====
-- The theorems on the browser at concrete inputs.
use thicket_firmware.Base.{
  ℕ, List, Option, arith, inl, inr, ◌≡◌, ◌⊎◌, refl, Bool, true, false, none, some, [], ◌∷◌, codes,
  equal, if◌then◌else◌,
}
use thicket_firmware.App.Platform.{Bytes}
use thicket_firmware.Desktop.Browser.{Browser, Host, Status, page_at, follow_target, back}
use thicket_firmware.Desktop.Navigate.{back-follow_target}
use thicket_firmware.Desktop.LiveFetch.{
  Result, Event, Fetch, Round, Network, announced, established, responded, closed, payload,
  live_fetch,
}
use thicket_firmware.Desktop.Fetched.{Passes, Answers, live_fetch-Answers}

-- A host with one page.
abbrev held : Bytes → Bool
held path = equal path (codes "pages/about.mu")

abbrev host : Host
host = record {
  file_exists = held;
  read_file = λ path. if held path then some (codes "> About") else none;
  live_fetch = none;
}

abbrev opened : Browser
opened = record {
  root = codes "pages";
  cur = record (page_at (codes "text") (codes "pages/index.mu") (codes "pages")) {
    scroll = 45;
    focus = some 0;
  };
  frame = record { height = 600; links = [] };
  stack = [];
  last_scroll = 45;
  status = Status.quiet;
  fb = λ i. 0xFF;
}

-- The page is scrolled before going back.
abbrev later : Browser
later = record (follow_target host (codes "about") opened).1 { last_scroll = 30 }

back-follow_target_example :
    (((follow_target host (codes "about") opened).0 ≡ true)
      × ((back later).0 ≡ true)
      × ((back later).1.cur ≡ record opened.cur { focus = none })
      × ((back later).1.stack ≡ opened.stack)
      × ((back later).1.last_scroll ≡ opened.cur.scroll))
    ⊎ (((follow_target host (codes "about") opened).0 ≡ false)
        × ((follow_target host (codes "about") opened).1.cur ≡ opened.cur)
        × ((follow_target host (codes "about") opened).1.stack ≡ opened.stack)
        × ((follow_target host (codes "about") opened).1.frame ≡ opened.frame))
back-follow_target_example = back-follow_target host (codes "about") opened later refl

-- A network whose node is announced at once and answers with the page `Hi`, unwrapped.
abbrev as_is : Bytes → Option Bytes
as_is encoded = none

abbrev round_at : ℕ → List (Event ℕ as_is) → Round ℕ as_is
round_at at events = record { at = at; events = events; recalled = none; is_closed = false }

abbrev network : Network ℕ as_is
network = record {
  start = 1000;
  discovery = round_at 1000 (announced (codes "ABCDEF01") (some 5) ∷ []) ∷ round_at 90000 [] ∷ [];
  requesting = round_at 1010 (established ∷ responded (codes "Hi") ∷ []) ∷ round_at 90000 [] ∷ [];
  teardown = closed ∷ [];
  drain_start = 1020;
  draining = round_at 90000 [] ∷ [];
}

-- What an earlier fetch has left.
abbrev stale : Fetch ℕ as_is
stale = record {
  ready = true;
  link_up = true;
  done = true;
  response = true;
  got = codes "old";
  path = codes "/page/old.mu";
  known = [];
  asked = [];
}

abbrev IsHi : Bytes → Type 0
IsHi p = p ≡ codes "Hi"

network-Passes : Passes ℕ as_is IsHi 30000 network
unfolding payload
network-Passes = record {
  discovery = (inr (inl (omega arith)), ((tt, tt), (tt, tt)));
  requesting = (inr (inl (omega arith)), ((tt, (refl, tt)), (tt, tt)));
  teardown = (tt, tt);
  draining = (inl (omega arith), (tt, tt));
}

live_fetch-Answers_example :
    (res : Result) × (t : Fetch ℕ as_is) × (live_fetch ℕ as_is 30000 network
        (codes "abcdef01:/page/index.mu")
        stale
      ≡ some (res, t))
    × Answers ℕ as_is IsHi (codes "abcdef01:/page/index.mu") res
live_fetch-Answers_example =
    live_fetch-Answers ℕ as_is IsHi 30000 network (codes "abcdef01:/page/index.mu") stale
      network-Passes
