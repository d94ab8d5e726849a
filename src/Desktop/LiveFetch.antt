-- ===== src/Desktop/LiveFetch.antt =====
-- desktop/LiveFetch.cpp: the fetch of a page over the mesh. What the network does is given, as the
-- callbacks that each call of its loop makes; `msgpack_unwrap_bin` and the identities are
-- parameters. Times are in thousandths of a second.
use thicket_firmware.Base.{
  ℕ, ◌+◌, ◌/◌, Bool, true, false, not, ◌&&◌, ◌||◌, Option, none, some, List, [], ◌∷◌, ◌++◌, length,
  ltb, leb, ◌==◌, if◌then◌else◌, equal, ◌>>=◌,
}
use thicket_firmware.App.Platform.{Bytes}
use thicket_firmware.Desktop.Resolve.{split_colon, looks_hex}

unfoldable pub to_lower_hex : Bytes → Bytes
to_lower_hex [] = []
to_lower_hex (ch ∷ rest) = (if leb b'A' ch && leb ch b'Z' then ch + 32 else ch) ∷ to_lower_hex rest

unfoldable pub is_path : Bytes → Bool
is_path [] = false
is_path (ch ∷ rest) = ch == b'/'

-- The hash and the path, where the target has both. A path that is refused is not kept: no fetch
-- goes on from it.
unfoldable pub parse_target : Bytes → Option (Bytes × Bytes)
parse_target target = elim (split_colon target) [
  | none ↦ none
  | some p ↦ if looks_hex p.0 && is_path p.1 then some (to_lower_hex p.0, p.1) else none
]

pub data Error : Type 0 where
  no_address not_ready no_route never_linked timed_out refused : Error

pub data Result : Type 0 where
  page : Bytes → Result
  error : Error → Result

module _ (Identity : Type 0) (unwrap : Bytes → Option Bytes) where
  -- The callbacks. An identity that is false in a test is `none`.
  pub data Event : Type 0 where
    established closed failed : Event
    responded : Bytes → Event
    announced : Bytes → Option Identity → Event

  -- The file's globals, and the paths that were asked for.
  pub record Fetch : Type 0 where
    pub ready : Bool
    pub link_up : Bool
    pub done : Bool
    pub response : Bool
    pub got : Bytes
    pub path : Bytes
    pub known : List (Bytes × Option Identity)
    pub asked : List Bytes

  unfoldable pub payload : Bytes → Bytes
  payload encoded = elim (unwrap encoded) [ none ↦ encoded | some bin ↦ bin ]

  unfoldable pub on_event : Event → Fetch → Fetch
  on_event established f = record f { link_up = true; asked = f.asked ++ f.path ∷ [] }
  on_event closed f = if not f.response then record f { done = true } else f
  on_event failed f = record f { response = false; done = true }
  on_event (responded encoded) f = record f { got = payload encoded; response = true; done = true }
  on_event (announced hash i) f = record f { known = (to_lower_hex hash, i) ∷ f.known }

  unfoldable pub on_events : List Event → Fetch → Fetch
  on_events [] f = f
  on_events (e ∷ es) f = on_events es (on_event e f)

  -- A round of a loop: the time that its test reads, what the network's loop calls, what `recall`
  -- then returns, and whether the link is then closed.
  pub record Round : Type 0 where
    pub at : ℕ
    pub events : List Event
    pub recalled : Option Identity
    pub is_closed : Bool

  unfoldable pub find_known : Bytes → List (Bytes × Option Identity) → Option Identity
  find_known hash [] = none
  find_known hash (p ∷ ps) = let rest = find_known hash ps in if equal hash p.0 then p.1 else rest

  -- The identity of the node, from an announce or else recalled.
  unfoldable pub node_identity : Bytes → Round → Fetch → Option Identity
  node_identity hash r f = elim (find_known hash f.known) [ none ↦ r.recalled | some i ↦ some i ]

  -- The three loops, over the rounds that there would be; `none` is a loop that has not ended.
  unfoldable pub discover : Bytes → ℕ → List Round → Fetch → Option (Option Identity × Fetch)
  discover hash deadline [] f = none
  discover hash deadline (r ∷ rs) f =
      let f' = on_events r.events f in
      let rest = discover hash deadline rs f' in
      if not (ltb r.at deadline)
      then some (none, f)
      else elim (node_identity hash r f') [ none ↦ rest | some i ↦ some (some i, f') ]

  unfoldable pub request_loop : ℕ → List Round → Fetch → Option Fetch
  request_loop deadline [] f = none
  request_loop deadline (r ∷ rs) f =
      let f' = on_events r.events f in
      let rest = request_loop deadline rs f' in
      if f.done || not (ltb r.at deadline)
      then some f
      else if r.is_closed && not f'.response
      then some f'
      else rest

  unfoldable pub drain_loop : ℕ → List Round → Fetch → Option Fetch
  drain_loop deadline [] f = none
  drain_loop deadline (r ∷ rs) f =
      let rest = drain_loop deadline rs (on_events r.events f) in
      if not (ltb r.at deadline) then some f else rest

  unfoldable pub ensure_ready : Fetch → Bool × Fetch
  ensure_ready f = (true, record f { ready = true })

  -- What the network does in a fetch: the time at its start, the rounds of the loops, what the
  -- teardown calls, the time after it.
  pub record Network : Type 0 where
    pub start : ℕ
    pub discovery : List Round
    pub requesting : List Round
    pub teardown : List Event
    pub drain_start : ℕ
    pub draining : List Round

  unfoldable pub reset_fetch : Bytes → Fetch → Fetch
  reset_fetch path f = record f {
    path = path;
    link_up = false;
    done = false;
    response = false;
    got = [];
  }

  unfoldable pub verdict : Fetch → Result
  verdict f =
      if f.response && not (length f.got == 0)
      then page f.got
      else if not f.link_up
      then error never_linked
      else if not f.done
      then error timed_out
      else error refused

  -- From the link on.
  unfoldable pub fetch_page : ℕ → Network → Option Identity × Fetch → Option (Result × Fetch)
  fetch_page timeout n (none, f) = some (error no_route, f)
  fetch_page timeout n (some i, f) = request_loop (n.start + timeout) n.requesting f >>= λ g.
      drain_loop (n.drain_start + 300) n.draining (on_events n.teardown g) >>= λ t.
      some (verdict t, t)

  unfoldable pub live_fetch : ℕ → Network → Bytes → Fetch → Option (Result × Fetch)
  live_fetch timeout n target f = elim (parse_target target) [
    | none ↦ some (error no_address, f)
    | some p ↦
        let (up, f') = ensure_ready f in
        if not up
        then some (error not_ready, f')
        else discover p.0 (n.start + timeout / 2) n.discovery (reset_fetch p.1 f')
          >>= fetch_page timeout n
  ]
