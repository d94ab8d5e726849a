-- ===== src/Desktop/Fetched.antt =====
-- What a fetch over the mesh comes to: it ends once the clock has passed its limits, and a page that
-- it gives has arrived in it.
use thicket_firmware.Base.{
  ℕ, ◌+◌, ◌/◌, ◌≤◌, ◌≡◌, ◌≢◌, ◌↔◌, ◌⊎◌, refl, ◌∙◌, ap, arith, true, not, ◌&&◌, ◌||◌, Option, none,
  some, List, [], ◌∷◌, length, All, ltb, ◌==◌, if_elim, Bool-cases, Option-cases, inl, inr, ◌>>=◌,
}
use thicket_firmware.App.Platform.{Bytes}
use thicket_firmware.Desktop.LiveFetch.{
  Result, page, error, no_address, not_ready, no_route, Event, established, closed, failed,
  responded, announced, Fetch, Round, Network, parse_target, payload, on_event, on_events,
  node_identity, discover, request_loop, drain_loop, ensure_ready, reset_fetch, verdict, fetch_page,
  live_fetch,
}

length-ne : (b : Bytes) → not (length b == 0) ≡ true → b ≢ []
length-ne [] h = ground arith
length-ne (ch ∷ rest) h = λ e. cc

module _ (Identity : Type 0) (unwrap : Bytes → Option Bytes) (Q : Bytes → Type 0) where
  -- A page that an answer brings has `Q`.
  abbrev pub Brings : Event Identity unwrap → Type 0
  Brings established = Unit
  Brings closed = Unit
  Brings failed = Unit
  Brings (responded encoded) = Q (payload Identity unwrap encoded)
  Brings (announced hash i) = Unit

  -- The clock of some round has come to the deadline.
  abbrev pub Reaches : ℕ → List (Round Identity unwrap) → Type 0
  Reaches deadline [] = ⊥
  Reaches deadline (r ∷ rs) = (deadline ≤ r.at) ⊎ Reaches deadline rs

  -- The loop's rounds bring such pages, and come to their deadline.
  abbrev pub Ends : ℕ → List (Round Identity unwrap) → Type 0
  Ends deadline rs = Reaches deadline rs × All (λ r. All Brings r.events) rs

  abbrev Holds : Fetch Identity unwrap → Type 0
  Holds f = f.response ≡ true → Q f.got

  on_event-Holds :
      (e : Event Identity unwrap) (f : Fetch Identity unwrap)
      → Brings e
      → Holds f
      → Holds (on_event Identity unwrap e f)
  unfolding on_event
  on_event-Holds established f b h = h
  on_event-Holds closed f b h = if_elim Holds (not f.response) (λ _. h) (λ _. h)
  on_event-Holds failed f b h = ground arith
  on_event-Holds (responded encoded) f b h = λ _. b
  on_event-Holds (announced hash i) f b h = h

  on_events-Holds :
      (es : List (Event Identity unwrap)) (f : Fetch Identity unwrap)
      → All Brings es
      → Holds f
      → Holds (on_events Identity unwrap es f)
  unfolding on_events
  on_events-Holds [] f b h = h
  on_events-Holds (e ∷ es) f b h =
      on_events-Holds es (on_event Identity unwrap e f) b.1 (on_event-Holds e f b.0 h)

  later :
      (deadline : ℕ) (r : Round Identity unwrap) (rs : List (Round Identity unwrap))
      → ltb r.at deadline ≡ true
      → Reaches deadline (r ∷ rs)
      → Reaches deadline rs
  later deadline r rs early (inl reached) = ground arith
  later deadline r rs early (inr rest) = rest

  discover-Holds :
      (hash : Bytes) (deadline : ℕ) (rs : List (Round Identity unwrap)) (f : Fetch Identity unwrap)
      → Ends deadline rs
      → Holds f
      → (r : Option Identity × Fetch Identity unwrap) × (discover Identity unwrap hash deadline rs f
          ≡ some r)
        × Holds r.1
  unfolding discover
  discover-Holds hash deadline [] f b h = absurd b.0
  discover-Holds hash deadline (r ∷ rs) f b h = elim (Bool-cases (ltb r.at deadline)) [
    | inr late ↦ rw late ((none, f), refl, h)
    | inl early ↦
        let f' = on_events Identity unwrap r.events f in
        let h' = on_events-Holds r.events f b.1.0 h in
        rw early (elim (Option-cases (node_identity Identity unwrap hash r f')) [
          | inr (i, found) ↦ rw found ((some i, f'), refl, h')
          | inl missing ↦
              rw missing
                (discover-Holds hash deadline rs f' (later deadline r rs early b.0, b.1.1) h')
        ])
  ]

  request_loop-Holds :
      (deadline : ℕ) (rs : List (Round Identity unwrap)) (f : Fetch Identity unwrap)
      → Ends deadline rs
      → Holds f
      → (t : Fetch Identity unwrap) × (request_loop Identity unwrap deadline rs f ≡ some t)
        × Holds t
  unfolding request_loop
  request_loop-Holds deadline [] f b h = absurd b.0
  request_loop-Holds deadline (r ∷ rs) f b h =
      elim (Bool-cases (f.done || not (ltb r.at deadline))) [
        | inl over ↦ rw over (f, refl, h)
        | inr on ↦
            let f' = on_events Identity unwrap r.events f in
            let h' = on_events-Holds r.events f b.1.0 h in
            let early : ltb r.at deadline ≡ true = ground arith in
            rw on (elim (Bool-cases (r.is_closed && not f'.response)) [
              | inl lost ↦ rw lost (f', refl, h')
              | inr kept ↦
                  rw kept
                    (request_loop-Holds deadline rs f' (later deadline r rs early b.0, b.1.1) h')
            ])
      ]

  drain_loop-Holds :
      (deadline : ℕ) (rs : List (Round Identity unwrap)) (f : Fetch Identity unwrap)
      → Ends deadline rs
      → Holds f
      → (t : Fetch Identity unwrap) × (drain_loop Identity unwrap deadline rs f ≡ some t) × Holds t
  unfolding drain_loop
  drain_loop-Holds deadline [] f b h = absurd b.0
  drain_loop-Holds deadline (r ∷ rs) f b h = elim (Bool-cases (ltb r.at deadline)) [
    | inr late ↦ rw late (f, refl, h)
    | inl early ↦ rw early (
        drain_loop-Holds deadline rs (on_events Identity unwrap r.events f)
          (later deadline r rs early b.0, b.1.1) (on_events-Holds r.events f b.1.0 h))
  ]

  -- A page is not empty and has `Q`; the errors after the link are not those before it.
  abbrev Ended : Result → Type 0
  Ended (page p) = (p ≢ []) × Q p
  Ended (error e) = (e ≢ no_address) × (e ≢ not_ready)

  verdict-Ended : (f : Fetch Identity unwrap) → Holds f → Ended (verdict Identity unwrap f)
  unfolding verdict
  verdict-Ended f h = elim (Bool-cases (f.response && not (length f.got == 0))) [
    | inl good ↦ rw good (length-ne f.got (ground arith), h (ground arith))
    | inr bad ↦ rw bad (
        if_elim Ended (not f.link_up) (λ _. (λ h. cc, λ h. cc))
          λ _. if_elim Ended (not f.done) (λ _. (λ h. cc, λ h. cc)) λ _. (λ h. cc, λ h. cc))
  ]

  -- The rounds of all loops bring such pages, and come to the limits of their loops.
  pub record Passes (timeout : ℕ) (n : Network Identity unwrap) : Type 0 where
    pub discovery : Ends (n.start + timeout / 2) n.discovery
    pub requesting : Ends (n.start + timeout) n.requesting
    pub teardown : All Brings n.teardown
    pub draining : Ends (n.drain_start + 300) n.draining

  fetch_page-Ended :
      (timeout : ℕ) (n : Network Identity unwrap) (o : Option Identity) (f : Fetch Identity unwrap)
      → Passes timeout n
      → Holds f
      → (res : Result) × (t : Fetch Identity unwrap) × (fetch_page Identity unwrap timeout n (o, f)
          ≡ some (res, t))
        × Ended res
  unfolding fetch_page
  fetch_page-Ended timeout n none f b h = (error no_route, f, refl, (λ e. cc, λ e. cc))
  fetch_page-Ended timeout n (some i) f b h =
      let (g, e, hg) = request_loop-Holds (n.start + timeout) n.requesting f b.requesting h in
      let down = on_events Identity unwrap n.teardown g in
      let (t, e', ht) =
        drain_loop-Holds (n.drain_start + 300) n.draining down b.draining
          (on_events-Holds n.teardown g b.teardown hg) in
      (
        verdict Identity unwrap t,
        t,
        ap
              (λ o. o >>= λ g.
                drain_loop Identity unwrap (n.drain_start + 300) n.draining
                  (on_events Identity unwrap n.teardown g)
                >>= λ t. some (verdict Identity unwrap t, t))
              e
            ∙ ap (λ o. o >>= λ t. some (verdict Identity unwrap t, t)) e',
        verdict-Ended t ht,
      )

  -- A fetch gives a page, which is not empty and has `Q`, for a target with an address only; it
  -- says that there is no address exactly if there is none.
  abbrev pub Answers : Bytes → Result → Type 0
  Answers target (page p) = (p ≢ []) × Q p × (parse_target target ≢ none)
  Answers target (error e) = (e ≢ not_ready) × ((e ≡ no_address) ↔ (parse_target target ≡ none))

  Ended-Answers :
      (target : Bytes) (res : Result) → parse_target target ≢ none → Ended res → Answers target res
  Ended-Answers target (page p) named h = (h.0, h.1, named)
  Ended-Answers target (error e) named h =
      (h.1, (λ no. absurd (h.0 no), λ gone. absurd (named gone)))

  -- Where the clock comes to the limits of the three loops, a fetch ends, whatever state earlier
  -- fetches have left. A page that it gives is not empty, and has any property that the pages of
  -- all answers within this fetch have, so that it is one of those and not one from an earlier
  -- fetch; it is given only for a target with a hash and a path. A target without them is refused
  -- as having no address, and no other is; that the network cannot be brought up is never said.
  pub live_fetch-Answers :
      (timeout : ℕ) (n : Network Identity unwrap) (target : Bytes) (f : Fetch Identity unwrap)
      → Passes timeout n
      → (res : Result) × (t : Fetch Identity unwrap) × (live_fetch Identity unwrap timeout n target
            f
          ≡ some (res, t))
        × Answers target res
  unfolding live_fetch ensure_ready reset_fetch
  live_fetch-Answers timeout n target f b = elim (Option-cases (parse_target target)) [
    | inl nowhere ↦
        rw (nowhere, live_fetch) (error no_address, f, refl, (λ e. cc, (λ _. nowhere, λ _. refl)))
    | inr (p, parsed) ↦
        let f' = reset_fetch Identity unwrap p.1 (record f { ready = true }) in
        let (r, e, h) =
          discover-Holds p.0 (n.start + timeout / 2) n.discovery f' b.discovery
            (λ h. ground arith) in
        let (res, t, e', ended) = fetch_page-Ended timeout n r.0 r.1 b h in
        (
          res,
          t,
          rw (parsed, live_fetch) (ap (λ o. o >>= fetch_page Identity unwrap timeout n) e ∙ e'),
          Ended-Answers target res (λ no. cc) ended,
        )
  ]
