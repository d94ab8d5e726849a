-- ===== src/Keypad/Tca8418/Poll.antt =====
-- What a poll returns, on any bus and on the scripted one, and the overflow flag.
use thicket_firmware.Base.{
  ◌⊎◌, inl, inr, ℕ, zero, suc, ◌+◌, ◌-◌, ◌%◌, ◌≤◌, ◌<◌, ◌≡◌, ◌≢◌, refl, arith, Bool, true, false,
  ◌||◌, not, none, some, List, [], ◌∷◌, ◌++◌, length, take, All, bit_and, ◌==◌, if◌then◌else◌,
  Option-cases, Bool-cases, take-nil,
}
use thicket_firmware.Base.Bits.{bit_and_0f, bit_and-le}
use thicket_firmware.Keypad.Tca8418.{
  KeyEvent, Bus, Driver, decode, drain, poll, poll_stat, ack, clear_overflow,
}
use thicket_firmware.Keypad.Tca8418.Decode.{InMatrix, decode-InMatrix}
use thicket_firmware.Keypad.Tca8418.FakeBus
use thicket_firmware.Keypad.Tca8418.FakeBus.{FakeBus}
use thicket_firmware.Keypad.Tca8418.Reg

decode-cases :
    (raw : ℕ) → (decode raw ≡ none) ⊎ ((ev : KeyEvent) × (decode raw ≡ some ev) × InMatrix ev)
decode-cases raw = elim (Option-cases (decode raw)) [
  | inl e ↦ inl e
  | inr (ev, e) ↦ inr (ev, e, decode-InMatrix raw ev e)
]

module _ {S : Type 0} (b : Bus S) where
  -- What bounds a list of stored events.
  abbrev pub Fits : ℕ → ℕ → List KeyEvent → Type 0
  Fits pending room evs = All InMatrix evs × (length evs ≤ pending) × (length evs ≤ room)

  drain-Fits : (pending max n : ℕ) (s : S) → Fits pending (max - n) (drain b pending max n s).0
  unfolding drain
  drain-Fits zero max n s = (tt, omega arith, omega arith)
  drain-Fits (suc pending) max n s =
      let (raw, s') = b.read_reg Reg.key_event_a s in
      elim (Option-cases raw) [
        | inl e ↦ ground arith
        | inr (v, e) ↦ elim (decode-cases v) [
          | inl f ↦ ground (arith, drain-Fits pending max n s')
          | inr (ev, f, m) ↦ ground (arith, drain-Fits pending max (n + 1) s')
        ]
      ]

  poll_stat-Fits : (max stat : ℕ) (d : Driver S) → Fits 15 max (poll_stat b max stat d).0
  unfolding poll_stat
  poll_stat-Fits max stat d =
      let d1 = if bit_and stat Reg.int_ovr_flow == 0 then d else record d { overflowed = true } in
      let (ec, s) = b.read_reg Reg.key_lck_ec d1.bus in
      elim (Option-cases ec) [
        | inl e ↦ ground arith
        | inr (v, e) ↦ ground (arith, bit_and-le v 0x0F, drain-Fits (bit_and v 0x0F % 256) max 0 s)
      ]

  -- On any bus, a poll stores at most `max` events and at most fifteen, each of them a key of
  -- the 8 by 10 matrix.
  pub poll-Fits : (out_null : Bool) (max : ℕ) (d : Driver S) → Fits 15 max (poll b out_null max d).0
  unfolding poll
  poll-Fits true max d = (tt, omega arith, omega arith)
  poll-Fits false max d =
      let (stat, s) = b.read_reg Reg.int_stat d.bus in
      elim (Option-cases stat) [
        | inl e ↦ ground arith
        | inr (v, e) ↦ ground (arith, poll_stat-Fits max v (record d { bus = s }))
      ]

  -- Whether a poll sees the overflow interrupt: it gets as far as reading INT_STAT, the read
  -- works, and the bit is set.
  abbrev pub sees_overflow : Bool → ℕ → Driver S → Bool
  sees_overflow out_null max d = elim (out_null || max == 0) [
    | true ↦ false
    | false ↦ elim (b.read_reg Reg.int_stat d.bus).0 [
      | none ↦ false
      | some stat ↦ not (bit_and stat Reg.int_ovr_flow == 0)
    ]
  ]

  -- On any bus, the overflow flag after a poll is set exactly if it was set before or the poll
  -- saw the interrupt, also where the rest of the poll fails. `clear_overflow` clears it and
  -- leaves the bus alone.
  pub overflowed-poll :
      (out_null : Bool) (max : ℕ) (d : Driver S)
      → ((poll b out_null max d).1.overflowed ≡ d.overflowed || sees_overflow out_null max d)
        × ((clear_overflow d).overflowed ≡ false)
        × ((clear_overflow d).bus ≡ d.bus)
  unfolding poll poll_stat ack clear_overflow
  overflowed-poll true max d = ground arith
  overflowed-poll false max d = elim (Option-cases (b.read_reg Reg.int_stat d.bus).0) [
    | inl e ↦ ground arith
    | inr (stat, e) ↦ elim (Bool-cases (bit_and stat Reg.int_ovr_flow == 0)) [
      | inl clear ↦ ground arith
      | inr set ↦ ground arith
    ]
  ]

-- The independent description of what a poll reads: the bytes up to the empty marker, the
-- matrix events among them.
abbrev pub before_empty : List ℕ → List ℕ
before_empty [] = []
before_empty (v ∷ q) = if v == 0 then [] else v ∷ before_empty q

abbrev pub matrix_events : List ℕ → List KeyEvent
matrix_events [] = []
matrix_events (v ∷ q) = elim (decode v) [ none ↦ matrix_events q | some ev ↦ ev ∷ matrix_events q ]

abbrev pub fake : Bus FakeBus
fake = record { write_reg = FakeBus.write_reg; read_reg = FakeBus.read_reg }

-- The events that a drain stores, by the queue of the event register alone.
drain-events :
    (pending room max n : ℕ) (q : List ℕ) (s : FakeBus)
    → s.fail_all ≡ false
    → s.reads Reg.key_event_a ≡ q
    → n + room ≡ max
    → (drain fake pending max n s).0 ≡ take room (matrix_events (before_empty (take pending q)))
unfolding drain
drain-events zero room max n q s up queued e = rw take-nil
drain-events (suc pending) zero max n q s up queued e = ground arith
drain-events (suc pending) (suc room) max n [] s up queued e = ground arith
drain-events (suc pending) (suc room) max n (v ∷ q) s up queued e = ground (
  arith,
  drain-events pending (suc room) max n q (FakeBus.set_reads s Reg.key_event_a q) up refl e,
  drain-events pending room max (n + 1) q (FakeBus.set_reads s Reg.key_event_a q) up refl,
)

-- A drain writes no register.
drain-writes :
    (pending max n : ℕ) (s : FakeBus)
    → ((drain fake pending max n s).1.writes ≡ s.writes)
      × ((drain fake pending max n s).1.fail_all ≡ s.fail_all)
unfolding drain
drain-writes zero max n s = (refl, refl)
drain-writes (suc pending) max n s =
    go (s.reads Reg.key_event_a) refl (λ n' q. drain-writes pending max n' (next q))
  where
    next : List ℕ → FakeBus
    next q = FakeBus.set_reads s Reg.key_event_a q

    go :
        (q : List ℕ)
        → s.reads Reg.key_event_a ≡ q
        → ((n' : ℕ) (r : List ℕ)
            → ((drain fake pending max n' (next r)).1.writes ≡ s.writes)
              × ((drain fake pending max n' (next r)).1.fail_all ≡ s.fail_all))
        → ((drain fake (suc pending) max n s).1.writes ≡ s.writes)
          × ((drain fake (suc pending) max n s).1.fail_all ≡ s.fail_all)
    go [] e ih = ground arith
    go (v ∷ q) e ih = ground (arith, ih n q, ih (n + 1) q)

-- On the scripted bus, working and with an interrupt status that has the key bit and an event
-- count queued, a poll into a real buffer stores the matrix events among the queued bytes, in
-- order: only as many bytes as the event count's low four bits say, none from the empty marker
-- on, and no more events than fit. It then writes the interrupt bits back, and writes nothing
-- else.
pub poll-FakeBus :
    (max stat ec : ℕ) (d : Driver FakeBus) {stats ecs q : List ℕ}
    → d.bus.fail_all ≡ false
    → d.bus.reads Reg.int_stat ≡ stat ∷ stats
    → d.bus.reads Reg.key_lck_ec ≡ ec ∷ ecs
    → d.bus.reads Reg.key_event_a ≡ q
    → bit_and stat Reg.int_k ≢ 0
    → ec < 256
    → max ≢ 0
    → let (evs, d') = poll fake false max d in
      (evs ≡ take max (matrix_events (before_empty (take (ec % 16) q))))
      × (d'.bus.writes ≡ d.bus.writes ++ (Reg.int_stat, stat) ∷ [])
unfolding poll poll_stat ack
poll-FakeBus max stat ec d {stats} {ecs} {q} up st ct queue key small room =
    let s1 = FakeBus.set_reads d.bus Reg.int_stat stats in
    let s2 = FakeBus.set_reads s1 Reg.key_lck_ec ecs in
    ground (
      arith,
      bit_and_0f ec small,
      drain-events (bit_and ec 0x0F % 256) max max 0 q s2 up queue,
      drain-writes (bit_and ec 0x0F % 256) max 0 s2,
    )
