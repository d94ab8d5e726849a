-- ===== src/Keypad/InputLayer/Held.antt =====
-- The live part of `_down` as a list: what tracking a key down or up does to it.
use thicket_firmware.Base.{
  ℕ, zero, suc, ◌+◌, ◌-◌, ◌≤◌, ◌<◌, min, ◌≡◌, refl, ap, arith, Bool, true, false, Option, List, [],
  ◌∷◌, ◌++◌, append_assoc, length, get_or, set, take, drop, length-append, length-set, length-take,
  take-append, take-append-drop, ltb, ◌==◌, if◌then◌else◌, none, some, ◌||◌, ◌⊎◌, inl, inr,
  Bool-cases,
}
use thicket_firmware.Keypad.InputLayer.{InputLayer, find_down, track_down, shift_down, track_up}

abbrev pub held : InputLayer → List ℕ
held s = take s.down_count s.down

abbrev pub contains : ℕ → List ℕ → Bool
contains code [] = false
contains code (x ∷ xs) = x == code || contains code xs

-- Without the first occurrence of a key.
abbrev pub remove : ℕ → List ℕ → List ℕ
remove code [] = []
remove code (x ∷ xs) = if x == code then xs else x ∷ remove code xs

-- The place of a key in a list whose first element has the index `i`.
abbrev index_from : ℕ → ℕ → List ℕ → Option ℕ
index_from code i [] = none
index_from code i (x ∷ xs) = if x == code then some i else index_from code (i + 1) xs

get_or-append : (pre : List ℕ) (x : ℕ) (xs : List ℕ) → get_or (pre ++ x ∷ xs) (length pre) 0 ≡ x
get_or-append [] x xs = refl
get_or-append (y ∷ pre) x xs = get_or-append pre x xs

set-append :
    (pre : List ℕ) (x v : ℕ) (xs : List ℕ) → set (pre ++ x ∷ xs) (length pre) v ≡ pre ++ v ∷ xs
set-append [] x v xs = refl
set-append (y ∷ pre) x v xs = ap (λ t. y ∷ t) (set-append pre x v xs)

find_down-append :
    (code left : ℕ) (pre xs : List ℕ)
    → left ≤ length xs
    → find_down (pre ++ xs) code left (length pre) ≡ index_from code (length pre) (take left xs)
unfolding find_down
find_down-append code zero pre xs h = refl
find_down-append code (suc left) pre [] h = absurd (omega arith)
find_down-append code (suc left) pre (x ∷ xs) h = ground (
  arith,
  get_or-append pre x xs,
  append_assoc pre (x ∷ []) xs,
  length-append pre (x ∷ []),
  find_down-append code left (pre ++ x ∷ []) xs,
)

-- Moving `left` elements down by one place, over the element at the end of `pre`.
shift_down-append :
    (left : ℕ) (pre : List ℕ) (x : ℕ) (xs : List ℕ)
    → left ≤ length xs
    → shift_down left (length pre) (pre ++ x ∷ xs) ≡ pre ++ (take left xs ++ drop left (x ∷ xs))
unfolding shift_down
shift_down-append zero pre x xs h = refl
shift_down-append (suc left) pre x [] h = absurd (omega arith)
shift_down-append (suc left) pre x (y ∷ ys) h = ground (
  arith,
  get_or-append (pre ++ x ∷ []) y ys,
  set-append pre x y (y ∷ ys),
  append_assoc pre (x ∷ []) (y ∷ ys),
  append_assoc pre (y ∷ []) (y ∷ ys),
  append_assoc pre (y ∷ []) (take left ys ++ drop left (y ∷ ys)),
  length-append pre (x ∷ []),
  length-append pre (y ∷ []),
  shift_down-append left (pre ++ y ∷ []) y ys,
)

-- Either a key is not in a list, or it splits it at its first occurrence.
record Splits (code i k : ℕ) (xs : List ℕ) : Type 0 where
  front : List ℕ
  back : List ℕ
  whole : xs ≡ front ++ code ∷ back
  place : k ≡ i + length front
  removed : remove code xs ≡ front ++ back

index_from-cases :
    (code i : ℕ) (xs : List ℕ)
    → ((index_from code i xs ≡ none) × (contains code xs ≡ false) × (remove code xs ≡ xs))
      ⊎ ((k : ℕ) × (index_from code i xs ≡ some k) × (contains code xs ≡ true) × Splits code i k xs)
index_from-cases code i [] = inl (refl, refl, refl)
index_from-cases code i (x ∷ xs) = elim (Bool-cases (x == code)) [
  | inl here ↦ inr (
    i,
    ground arith,
    ground arith,
    record {
      front = [];
      back = xs;
      whole = ground arith;
      place = omega arith;
      removed = ground arith;
    },
  )
  | inr other ↦ elim (index_from-cases code (i + 1) xs) [
    | inl (e, c, r) ↦ inl (ground arith, ground arith, ground arith)
    | inr (k, e, c, s) ↦ inr (
      k,
      ground arith,
      ground arith,
      record {
        front = x ∷ s.front;
        back = s.back;
        whole = ap (λ t. x ∷ t) s.whole;
        place = omega (arith, s.place);
        removed = ground (arith, s.removed);
      },
    )
  ]
]

take-set :
    (i : ℕ) (xs : List ℕ) (v : ℕ) → i < length xs → take (suc i) (set xs i v) ≡ take i xs ++ v ∷ []
take-set i [] v h = absurd (omega arith)
take-set zero (x ∷ xs) v h = refl
take-set (suc i) (x ∷ xs) v h = ap (λ t. x ∷ t) (take-set i xs v (omega arith))

length-shift_down : (left j : ℕ) (down : List ℕ) → length (shift_down left j down) ≡ length down
unfolding shift_down
length-shift_down zero j down = refl
length-shift_down (suc left) j down = ground (
  arith,
  length-shift_down left (j + 1) (set down j (get_or down (j + 1) 0)),
  length-set down j (get_or down (j + 1) 0),
)

-- Shifting over the first occurrence leaves the list without it at the front of the array.
take-shift_down :
    (front back rest : List ℕ) (code : ℕ)
    → take
        (length front + length back)
        (shift_down (length back) (length front) (front ++ code ∷ (back ++ rest)))
      ≡ front ++ back
take-shift_down front back rest code = ground (
  arith,
  shift_down-append (length back) front code (back ++ rest),
  length-append back rest,
  length-append front back,
  take-append (length back) back rest refl,
  append_assoc front back (drop (length back) (code ∷ (back ++ rest))),
  take-append (length front + length back) (front ++ back)
      (drop (length back) (code ∷ (back ++ rest))),
)

-- What the loops over `_down` rely on.
pub record IsTracked (s : InputLayer) : Type 0 where
  pub array : length s.down ≡ 8
  pub counted : s.down_count ≤ 8

module _ {s : InputLayer} (ok : IsTracked s) where
  pub length-held : length (held s) ≡ s.down_count
  length-held = omega (arith, length-take s.down_count s.down, ok.array, ok.counted)

  found : (code : ℕ) → find_down s.down code s.down_count 0 ≡ index_from code 0 (held s)
  found code = find_down-append code s.down_count [] s.down (omega (arith, ok.array, ok.counted))

  pub track_down_old : (code : ℕ) → contains code (held s) ≡ true → track_down code s ≡ (false, s)
  unfolding track_down
  track_down_old code h = elim (index_from-cases code 0 (held s)) [
    | inl (e, c, r) ↦ ground arith
    | inr (k, e, c, r) ↦ ground (arith, found code)
  ]

  -- A fresh key is appended while there is room.
  pub track_down_new :
      (code : ℕ)
      → contains code (held s) ≡ false
      → let (fresh, s') = track_down code s in
        (fresh ≡ true)
        × (held s' ≡ (if ltb s.down_count 8 then held s ++ code ∷ [] else held s))
        × IsTracked s'
        × (s'.down_count ≡ min 8 (s.down_count + 1))
        × (s'.pending ≡ s.pending)
        × (s'.refused_count ≡ s.refused_count)
  unfolding track_down
  track_down_new code h = elim (index_from-cases code 0 (held s)) [
    | inr (k, e, c, r) ↦ cc
    | inl (e, c, r) ↦ elim (Bool-cases (ltb s.down_count 8)) [
      | inl room ↦ ground (
        arith,
        ok.array,
        found code,
        length-set s.down s.down_count code,
        take-set s.down_count s.down code,
      )
      | inr full ↦ ground (arith, ok.array, ok.counted, found code)
    ]
  ]

  pub held-track_up :
      (code : ℕ)
      → let s' = (track_up code s).1 in
        (held s' ≡ remove code (held s))
        × IsTracked s'
        × (s'.pending ≡ s.pending)
        × (s'.refused_count ≡ s.refused_count)
  unfolding track_up
  held-track_up code = elim (index_from-cases code 0 (held s)) [
    | inl (e, c, r) ↦ ground (arith, found code, ok.array, ok.counted)
    | inr (k, e, c, r) ↦
        let rest = drop s.down_count s.down in
        ground (
          arith,
          found code,
          ok.array,
          ok.counted,
          length-held,
          r.whole,
          r.place,
          r.removed,
          length-append r.front (code ∷ r.back),
          take-append-drop s.down_count s.down,
          append_assoc r.front (code ∷ r.back) rest,
          length-shift_down (s.down_count - 1 - k) k s.down,
          take-shift_down r.front r.back rest code,
        )
  ]
