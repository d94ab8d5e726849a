-- ===== src/Keypad/InputLayer/Tests.antt =====
-- The input layer's theorems at concrete inputs.
use thicket_firmware.Base.{
  ℕ, ◌+◌, ◌*◌, ◌≡◌, ◌≤◌, refl, arith, true, false, some, List, [], ◌∷◌, ◌++◌, length, map, u32, inl,
}
use thicket_firmware.Keypad.InputLayer.{
  EventType, InputLayer, Keymap, key_down, track_down, find_down, press, ghost_risk, mod_bit,
  ordinary, no_event,
}
use thicket_firmware.Keypad.InputLayer.Held.{held, contains}
use thicket_firmware.Keypad.InputLayer.Spec.{
  view, fresh_layer, IsValid, Input, pressed, released, resetting, run, run_view, run_refines,
}
use thicket_firmware.Keypad.InputLayer.Guard.{
  taps, armed_by, key_down-refuses, key_down-emits, taps_then_keys,
}

-- Every ordinary key is a letter, another one with a modifier.
abbrev letters : Keymap
letters = some (λ code mods. 55 + code + 32 * mods)

fresh-IsValid : IsValid fresh_layer
fresh-IsValid = record {
  tracked = record { array = refl; counted = omega arith };
  modifiers = omega arith;
}

abbrev typing : List Input
typing = pressed 1 ∷ released 1 ∷ pressed 10 ∷ pressed 11 ∷ pressed 12 ∷ resetting ∷ pressed 12 ∷ []

run_refines_example :
    ((run letters typing fresh_layer).0 ≡ (run_view letters typing (view fresh_layer)).0)
    × (view (run letters typing fresh_layer).1 ≡ (run_view letters typing (view fresh_layer)).1)
    × IsValid (run letters typing fresh_layer).1
run_refines_example = run_refines letters typing fresh-IsValid

-- Keys 10 and 11 are held, and shift is armed.
abbrev two_held : InputLayer
two_held = record {
  pending = 1;
  down = 10 ∷ 11 ∷ 0 ∷ 0 ∷ 0 ∷ 0 ∷ 0 ∷ 0 ∷ [];
  down_count = 2;
  refused_count = 0;
}

two_held-IsValid : IsValid two_held
two_held-IsValid = record {
  tracked = record { array = refl; counted = omega arith };
  modifiers = omega arith;
}

key_down-refuses_example :
    ((key_down letters 12 two_held).0
      ≡ record { type = EventType.refused; ch = 0; code = 12; mods = 0 })
    × ((key_down letters 12 two_held).1.pending ≡ two_held.pending)
    × ((key_down letters 12 two_held).1.refused_count ≡ u32 (two_held.refused_count + 1))
    × (ghost_risk (key_down letters 12 two_held).1 ≡ true)
key_down-refuses_example =
    key_down-refuses letters 12 two_held-IsValid (omega arith) (omega arith) refl

-- Key 10 is held, and shift is armed.
abbrev one_held : InputLayer
one_held = record {
  pending = 1;
  down = 10 ∷ 11 ∷ 0 ∷ 0 ∷ 0 ∷ 0 ∷ 0 ∷ 0 ∷ [];
  down_count = 1;
  refused_count = 0;
}

one_held-IsValid : IsValid one_held
one_held-IsValid = record {
  tracked = record { array = refl; counted = omega arith };
  modifiers = omega arith;
}

letter : (key_down letters 12 one_held).0.type ≡ EventType.char
unfolding key_down track_down find_down press
letter = refl

key_down-emits_example :
    (contains 12 (held one_held) ≡ false)
    × (length (held (key_down letters 12 one_held).1) ≤ 2)
    × (mod_bit 12 ≡ 0)
    × ((key_down letters 12 one_held).0.mods ≡ one_held.pending)
    × ((key_down letters 12 one_held).1.pending ≡ 0)
key_down-emits_example = key_down-emits letters 12 one_held-IsValid (inl letter)

abbrev shift_alt_shift : List ℕ
shift_alt_shift = 1 ∷ 2 ∷ 1 ∷ []

taps_then_keys_example :
    (run letters (taps shift_alt_shift ++ pressed 10 ∷ released 10 ∷ pressed 11 ∷ []) fresh_layer).0
    ≡ map (λ m. no_event m) shift_alt_shift
      ++ ordinary letters 10 (armed_by fresh_layer.pending shift_alt_shift)
        ∷ ordinary letters 11 0
        ∷ []
taps_then_keys_example =
    taps_then_keys letters shift_alt_shift 10 11 fresh-IsValid refl
      (omega arith, (omega arith, (omega arith, tt))) (omega arith, refl) (omega arith, refl)
