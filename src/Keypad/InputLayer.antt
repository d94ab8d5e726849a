-- ===== src/Keypad/InputLayer.antt =====
-- lib/Keypad/src/InputLayer.{h,cpp}: key events in, characters and actions out.
-- `_down` is the array of eight bytes, of which the first `_down_count` are live. The keymap is
-- the caller's function with its context applied, or null.
pub mod Held
pub mod Spec
pub mod Guard
mod Tests
use thicket_firmware.Base.{
  ℕ, zero, suc, ◌+◌, ◌-◌, Bool, true, false, ◌||◌, Option, List, get_or, set, bit_and, bit_or, ltb,
  leb, ◌==◌, if◌then◌else◌, u32, ◌<<<◌,
}

abbrev pub key_none : ℕ
key_none = 0

abbrev pub key_shift : ℕ
key_shift = 1

abbrev pub key_alt : ℕ
key_alt = 2

abbrev pub key_sym : ℕ
key_sym = 3

abbrev pub mod_none : ℕ
mod_none = 0

abbrev pub mod_shift : ℕ
mod_shift = 1 <<< 0

abbrev pub mod_alt : ℕ
mod_alt = 1 <<< 1

abbrev pub mod_sym : ℕ
mod_sym = 1 <<< 2

abbrev pub ghost_threshold : ℕ
ghost_threshold = 3

abbrev pub max_tracked : ℕ
max_tracked = 8

pub data EventType : Type 0 where
  none char action refused : EventType

pub record Event : Type 0 where
  pub type : EventType
  pub ch : ℕ
  pub code : ℕ
  pub mods : ℕ

abbrev pub Keymap : Type 0
Keymap = Option (ℕ → ℕ → ℕ)

pub record InputLayer : Type 0 where
  pub pending : ℕ
  pub down : List ℕ
  pub down_count : ℕ
  pub refused_count : ℕ

abbrev pub mod_bit : ℕ → ℕ
mod_bit code =
    if code == key_shift
    then mod_shift
    else if code == key_alt
    then mod_alt
    else if code == key_sym
    then mod_sym
    else mod_none

-- The index at which both loops over `_down` stop: `i` on, `left` rounds before `_down_count`.
pub find_down : List ℕ → ℕ → ℕ → ℕ → Option ℕ
find_down down code zero i = Option.none
find_down down code (suc left) i =
    if get_or down i 0 == code then Option.some i else find_down down code left (i + 1)

pub track_down : ℕ → InputLayer → Bool × InputLayer
track_down code s = elim (find_down s.down code s.down_count 0) [
  | Option.some _ ↦ (false, s)
  | Option.none ↦
      if ltb s.down_count max_tracked
      then (true, record s { down = set s.down s.down_count code; down_count = s.down_count + 1 })
      else (true, record s { down_count = max_tracked })
]

-- `for (j = i; j + 1 < _down_count; j++) _down[j] = _down[j + 1]`, by the rounds left.
pub shift_down : ℕ → ℕ → List ℕ → List ℕ
shift_down zero j down = down
shift_down (suc left) j down = shift_down left (j + 1) (set down j (get_or down (j + 1) 0))

pub track_up : ℕ → InputLayer → Bool × InputLayer
track_up code s = elim (find_down s.down code s.down_count 0) [
  | Option.none ↦ (false, s)
  | Option.some i ↦ (
    true,
    record s { down = shift_down (s.down_count - 1 - i) i s.down; down_count = s.down_count - 1 },
  )
]

-- What an event starts as.
abbrev pub no_event : ℕ → Event
no_event code = record { type = EventType.none; ch = 0; code = code; mods = 0 }

-- Arming a modifier, or disarming it if it is armed. `~bit` is cut to a byte.
pub toggle : ℕ → ℕ → ℕ
toggle pending bit =
    if bit_and pending bit == 0 then bit_or pending bit else bit_and pending (255 - bit)

abbrev pub lookup_char : Keymap → ℕ → ℕ → ℕ
lookup_char Option.none code mods = 0
lookup_char (Option.some f) code mods = f code mods

-- An ordinary key spends what is armed.
abbrev pub ordinary : Keymap → ℕ → ℕ → Event
ordinary keymap code applied =
    let ch = lookup_char keymap code applied in
    if ch == 0
    then record { type = EventType.action; ch = 0; code = code; mods = applied }
    else record { type = EventType.char; ch = ch; code = code; mods = applied }

-- `key_down` for a fresh key that is already tracked: the guard, then modifiers, then the rest.
pub press : Keymap → ℕ → InputLayer → Event × InputLayer
press keymap code s =
    if leb ghost_threshold s.down_count
    then (
      record { type = EventType.refused; ch = 0; code = code; mods = 0 },
      record s { refused_count = u32 (s.refused_count + 1) },
    )
    else if mod_bit code == mod_none
    then (ordinary keymap code s.pending, record s { pending = mod_none })
    else (no_event code, record s { pending = toggle s.pending (mod_bit code) })

pub key_down : Keymap → ℕ → InputLayer → Event × InputLayer
key_down keymap code s =
    if code == key_none
    then (no_event code, s)
    else (let (fresh, s') = track_down code s in
        if fresh then press keymap code s' else (no_event code, s'))

pub key_up : ℕ → InputLayer → InputLayer
key_up code s = (track_up code s).1

pub reset : InputLayer → InputLayer
reset s = record s { pending = mod_none; down_count = 0 }

pub ghost_risk : InputLayer → Bool
ghost_risk s = leb ghost_threshold s.down_count
