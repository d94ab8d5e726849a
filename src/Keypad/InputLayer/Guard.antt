-- ===== src/Keypad/InputLayer/Guard.antt =====
-- The guard against ghost keys and the one-shot modifiers, as properties of the layer's runs.
use thicket_firmware.Base.{
  ℕ, ◌+◌, ◌≤◌, ◌≡◌, ◌≢◌, refl, arith, true, false, List, [], ◌∷◌, ◌++◌, length, length-append, All,
  map, ==_refl, bit_xor, u32, ◌⊎◌,
}
use thicket_firmware.Keypad.InputLayer.{
  InputLayer, EventType, Keymap, key_down, ghost_risk, mod_bit, ordinary, no_event,
}
use thicket_firmware.Keypad.InputLayer.Held.{held, contains, length-held}
use thicket_firmware.Keypad.InputLayer.Spec.{
  View, view, accept, down, IsValid, key_down-refines, Input, pressed, released, run, run_refines,
  run_view,
}

-- In a valid state with two or more keys held, pressing a further one, other than the code 0, is
-- refused: nothing is emitted for it, no modifier is armed or spent, the 32-bit counter of
-- refusals goes up by one, and the layer then reports the risk.
pub key_down-refuses :
    (keymap : Keymap) (code : ℕ) {s : InputLayer}
    → IsValid s
    → 2 ≤ length (held s)
    → code ≢ 0
    → contains code (held s) ≡ false
    → let (ev, s') = key_down keymap code s in
      (ev ≡ record { type = EventType.refused; ch = 0; code = code; mods = 0 })
      × (s'.pending ≡ s.pending)
      × (s'.refused_count ≡ u32 (s.refused_count + 1))
      × (ghost_risk s' ≡ true)
unfolding ghost_risk down accept
key_down-refuses keymap code {s} ok two some_key new = ground (
  arith,
  key_down-refines keymap code ok,
  length-append (held s) (code ∷ []),
  length-held (key_down-refines keymap code ok).1.tracked,
)

-- In a valid state, a character or an action comes only of a key that was not held, with at most
-- one other key held, and it is an ordinary key. It carries all the modifiers that were armed,
-- and none is armed after it.
pub key_down-emits :
    (keymap : Keymap) (code : ℕ) {s : InputLayer}
    → IsValid s
    → ((key_down keymap code s).0.type ≡ EventType.char)
      ⊎ ((key_down keymap code s).0.type ≡ EventType.action)
    → let (ev, s') = key_down keymap code s in
      (contains code (held s) ≡ false)
      × (length (held s') ≤ 2)
      × (mod_bit code ≡ 0)
      × (ev.mods ≡ s.pending)
      × (s'.pending ≡ 0)
unfolding down accept
key_down-emits keymap code {s} ok e =
    ground (arith, key_down-refines keymap code ok, length-append (held s) (code ∷ []))

-- Modifiers pressed and released one after the other.
abbrev pub taps : List ℕ → List Input
taps [] = []
taps (m ∷ ms) = pressed m ∷ released m ∷ taps ms

-- The modifiers armed by taps, by exclusive or: a modifier counts if it was tapped an odd number
-- of times.
abbrev pub armed_by : ℕ → List ℕ → ℕ
armed_by p [] = p
armed_by p (m ∷ ms) = armed_by (bit_xor p (mod_bit m)) ms

abbrev pub IsModifier : ℕ → Type 0
IsModifier code = mod_bit code ≢ 0

taps-run_view :
    (keymap : Keymap) (ms : List ℕ) (rest : List Input) (v : View)
    → v.keys ≡ []
    → All IsModifier ms
    → (run_view keymap (taps ms ++ rest) v).0
      ≡ map (λ m. no_event m) ms
        ++ (run_view keymap rest (record v { armed = armed_by v.armed ms })).0
unfolding run_view down accept
taps-run_view keymap [] rest v empty h = refl
taps-run_view keymap (m ∷ ms) rest v empty h = ground (
  arith,
  h.0,
  ==_refl m,
  taps-run_view keymap ms rest (record v { armed = bit_xor v.armed (mod_bit m) }) empty h.1,
)

-- One-shot modifiers: in a valid state with no key held, after any sequence of modifier taps the
-- next ordinary key carries exactly the modifiers tapped an odd number of times, joined by
-- exclusive or with what was armed before, and the ordinary key after it carries none. The taps
-- themselves emit nothing.
pub taps_then_keys :
    (keymap : Keymap) (ms : List ℕ) (a b : ℕ) {s : InputLayer}
    → IsValid s
    → held s ≡ []
    → All IsModifier ms
    → (a ≢ 0) × (mod_bit a ≡ 0)
    → (b ≢ 0) × (mod_bit b ≡ 0)
    → (run keymap (taps ms ++ pressed a ∷ released a ∷ pressed b ∷ []) s).0
      ≡ map (λ m. no_event m) ms
        ++ ordinary keymap a (armed_by s.pending ms) ∷ ordinary keymap b 0 ∷ []
unfolding run_view down accept
taps_then_keys keymap ms a b {s} ok empty h ha hb = ground (
  arith,
  ==_refl a,
  run_refines keymap (taps ms ++ pressed a ∷ released a ∷ pressed b ∷ []) ok,
  taps-run_view keymap ms (pressed a ∷ released a ∷ pressed b ∷ []) (view s) empty h,
)
