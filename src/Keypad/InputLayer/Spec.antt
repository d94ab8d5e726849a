-- ===== src/Keypad/InputLayer/Spec.antt =====
-- The layer as a list of held keys with the armed modifiers, and that the array code implements it.
use thicket_firmware.Base.{
  ℕ, ◌+◌, ◌<◌, ◌≡◌, refl, arith, true, false, ◌||◌, ◌&&◌, List, [], ◌∷◌, ◌++◌, length, bit_xor, ltb,
  leb, ◌==◌, if◌then◌else◌, u32, Bool-cases, inl, inr,
}
use thicket_firmware.Base.Bits.{holds_below, both_below, both_below_sound}
use thicket_firmware.Keypad.InputLayer.{
  InputLayer, Event, EventType, Keymap, key_down, key_up, reset, press, ordinary, no_event, mod_bit,
  toggle, track_down,
}
use thicket_firmware.Keypad.InputLayer.Held.{
  held, contains, remove, IsTracked, length-held, track_down_old, track_down_new, held-track_up,
}

-- What a user of the layer sees of its state.
pub record View : Type 0 where
  pub keys : List ℕ
  pub armed : ℕ
  pub refusals : ℕ

abbrev pub view : InputLayer → View
view s = record { keys = held s; armed = s.pending; refusals = s.refused_count }

abbrev pub fresh_layer : InputLayer
fresh_layer = record {
  pending = 0;
  down = 0 ∷ 0 ∷ 0 ∷ 0 ∷ 0 ∷ 0 ∷ 0 ∷ 0 ∷ [];
  down_count = 0;
  refused_count = 0;
}

-- The keys held after a fresh press: at most eight are remembered.
abbrev pub with_key : ℕ → List ℕ → List ℕ
with_key code keys = if ltb (length keys) 8 then keys ++ code ∷ [] else keys

-- What a press does once its key is among the held ones: three held keys cannot be trusted.
unfoldable pub accept : Keymap → ℕ → View → Event × View
accept keymap code v =
    if leb 3 (length v.keys)
    then (
      record { type = EventType.refused; ch = 0; code = code; mods = 0 },
      record v { refusals = u32 (v.refusals + 1) },
    )
    else if mod_bit code == 0
    then (ordinary keymap code v.armed, record v { armed = 0 })
    else (no_event code, record v { armed = bit_xor v.armed (mod_bit code) })

-- A key that is held already changes nothing.
unfoldable pub down : Keymap → ℕ → View → Event × View
down keymap code v =
    if code == 0 || contains code v.keys
    then (no_event code, v)
    else accept keymap code (record v { keys = with_key code v.keys })

abbrev pub up : ℕ → View → View
up code v = record v { keys = remove code v.keys }

abbrev pub cleared : View → View
cleared v = record v { keys = []; armed = 0 }

pub record IsValid (s : InputLayer) : Type 0 where
  pub tracked : IsTracked s
  pub modifiers : s.pending < 8

toggle_table :
    both_below 8 4
      (λ p c. toggle p (mod_bit c) == bit_xor p (mod_bit c) && ltb (toggle p (mod_bit c)) 8)
    ≡ true
unfolding holds_below toggle
toggle_table = refl

toggle_lem :
    (p code : ℕ)
    → p < 8
    → code < 4
    → (toggle p (mod_bit code) ≡ bit_xor p (mod_bit code)) × (toggle p (mod_bit code) < 8)
toggle_lem p code hp hc = ground (
  arith,
  both_below_sound 8 4
      (λ p c. toggle p (mod_bit c) == bit_xor p (mod_bit c) && ltb (toggle p (mod_bit c)) 8) p code
      toggle_table,
)

mod_bit-small : (code : ℕ) → (mod_bit code == 0) ≡ false → code < 4
mod_bit-small code h = ground arith

press-accept :
    (keymap : Keymap) (code : ℕ) {s : InputLayer}
    → IsValid s
    → let (ev, s') = press keymap code s in
      ((ev, view s') ≡ accept keymap code (view s)) × IsValid s'
unfolding press accept
press-accept keymap code {s} ok = elim (Bool-cases (mod_bit code == 0)) [
  | inl plain ↦ ground (arith, length-held ok.tracked)
  | inr bit ↦ ground (
    arith,
    length-held ok.tracked,
    toggle_lem s.pending code ok.modifiers (mod_bit-small code bit),
  )
]

-- A key going down is what the specification says, event and state, and the state stays valid.
pub key_down-refines :
    (keymap : Keymap) (code : ℕ) {s : InputLayer}
    → IsValid s
    → let (ev, s') = key_down keymap code s in
      ((ev, view s') ≡ down keymap code (view s)) × IsValid s'
unfolding key_down down
key_down-refines keymap code {s} ok = elim (Bool-cases (contains code (held s))) [
  | inl old ↦ ground (arith, track_down_old ok.tracked code old)
  | inr new ↦
      let tracked = track_down_new ok.tracked code new in
      let s' = (track_down code s).1 in
      let ok' : IsValid s' = record { tracked = tracked.2; modifiers = ground arith } in
      ground (arith, length-held ok.tracked, press-accept keymap code ok')
]

-- What the scanner reports, and the user interface's reset.
pub data Input : Type 0 where
  pressed released : ℕ → Input
  resetting : Input

pub run : Keymap → List Input → InputLayer → List Event × InputLayer
run keymap [] s = ([], s)
run keymap (pressed code ∷ is) s =
    let (ev, s') = key_down keymap code s in let (evs, s'') = run keymap is s' in (ev ∷ evs, s'')
run keymap (released code ∷ is) s = run keymap is (key_up code s)
run keymap (resetting ∷ is) s = run keymap is (reset s)

unfoldable pub run_view : Keymap → List Input → View → List Event × View
run_view keymap [] v = ([], v)
run_view keymap (pressed code ∷ is) v =
    let (ev, v') = down keymap code v in let (evs, v'') = run_view keymap is v' in (ev ∷ evs, v'')
run_view keymap (released code ∷ is) v = run_view keymap is (up code v)
run_view keymap (resetting ∷ is) v = run_view keymap is (cleared v)

pub key_up-refines :
    (code : ℕ) {s : InputLayer}
    → IsValid s
    → (view (key_up code s) ≡ up code (view s)) × IsValid (key_up code s)
unfolding key_up
key_up-refines code {s} ok = ground (arith, held-track_up ok.tracked code)

reset-refines :
    {s : InputLayer} → IsValid s → (view (reset s) ≡ cleared (view s)) × IsValid (reset s)
unfolding reset
reset-refines {s} ok = ground arith

-- Over any sequence of presses, releases and resets, from any valid state, the layer emits the
-- events of the list specification and ends in the state that the specification ends in, valid.
pub run_refines :
    (keymap : Keymap) (is : List Input) {s : InputLayer}
    → IsValid s
    → ((run keymap is s).0 ≡ (run_view keymap is (view s)).0)
      × (view (run keymap is s).1 ≡ (run_view keymap is (view s)).1)
      × IsValid (run keymap is s).1
unfolding run run_view
run_refines keymap [] ok = (refl, refl, ok)
run_refines keymap (pressed code ∷ is) {s} ok =
    let step = key_down-refines keymap code ok in ground (arith, step, run_refines keymap is step.1)
run_refines keymap (released code ∷ is) {s} ok =
    let step = key_up-refines code ok in ground (arith, step, run_refines keymap is step.1)
run_refines keymap (resetting ∷ is) {s} ok =
    let step = reset-refines ok in ground (arith, step, run_refines keymap is step.1)
