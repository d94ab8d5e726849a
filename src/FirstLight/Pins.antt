-- ===== src/FirstLight/Pins.antt =====
-- `SoftSpiBus`: what the driver sends, as switches of three pins; and what a part that takes its
-- data in with the rising edge of the clock makes of them.
use thicket_firmware.Base.{
  ℕ, zero, suc, ◌+◌, ◌*◌, ◌<◌, ◌≡◌, refl, sym, ap, ◌∙◌, Bool, true, false, not, List, [], ◌∷◌, ◌++◌,
  append_assoc, append-nil, All, IsByte, bit_and, ◌==◌, if◌then◌else◌, u8, ◌<<<◌,
}
use thicket_firmware.Base.Bits.{holds_below, byte_table}

pub data Pin : Type 0 where
  clk di cs : Pin

pub data PinOp : Type 0 where
  switch : Pin → Bool → PinOp

-- SCS is active high.
unfoldable pub select_pins : Bool → List PinOp
select_pins on = switch cs on ∷ []

-- The rounds over the bits of a byte, by the rounds left.
unfoldable pub shift_bits : ℕ → ℕ → List PinOp
shift_bits zero b = []
shift_bits (suc left) b =
    switch di (not (bit_and b 0x80 == 0))
    ∷ switch clk true
    ∷ switch clk false
    ∷ shift_bits left (u8 (b <<< 1))

unfoldable pub write_pins : List ℕ → List PinOp
write_pins [] = []
write_pins (b ∷ bs) = shift_bits 8 b ++ write_pins bs

-- The two lines, and the bits that were taken in.
pub record Wire : Type 0 where
  pub clock : Bool
  pub line : Bool
  pub taken : List Bool

pub take_switch : PinOp → Wire → Wire
take_switch (switch clk true) w =
    if w.clock then w else record w { clock = true; taken = w.taken ++ w.line ∷ [] }
take_switch (switch clk false) w = record w { clock = false }
take_switch (switch di level) w = record w { line = level }
take_switch (switch cs level) w = w

pub sample : List PinOp → Wire → Wire
sample [] w = w
sample (op ∷ ops) w = sample ops (take_switch op w)

-- Eight bits are a byte, the first the highest.
abbrev digit : Bool → ℕ
digit true = 1
digit false = 0

pub bytes_of : List Bool → List ℕ
unfolding digit
bytes_of (a ∷ b ∷ c ∷ d ∷ e ∷ f ∷ g ∷ h ∷ rest) =
    (digit a * 128
      + digit b * 64
      + digit c * 32
      + digit d * 16
      + digit e * 8
      + digit f * 4
      + digit g * 2
      + digit h)
    ∷ bytes_of rest
bytes_of _ = []

-- The bits of a byte, as the loop shifts them out.
bits : ℕ → ℕ → List Bool
bits zero b = []
bits (suc left) b = not (bit_and b 0x80 == 0) ∷ bits left (u8 (b <<< 1))

sample-append : (os ps : List PinOp) (w : Wire) → sample (os ++ ps) w ≡ sample ps (sample os w)
unfolding sample
sample-append [] ps w = refl
sample-append (o ∷ os) ps w = sample-append os ps (take_switch o w)

-- From a clock that is low, the bits go over one by one, and the clock is low again.
sample-shift_bits :
    (n b : ℕ) (w : Wire)
    → w.clock ≡ false
    → ((sample (shift_bits n b) w).taken ≡ w.taken ++ bits n b)
      × ((sample (shift_bits n b) w).clock ≡ false)
unfolding sample shift_bits take_switch bits
sample-shift_bits zero b w low = (sym (append-nil w.taken), low)
sample-shift_bits (suc n) b w low =
    let level = not (bit_and b 0x80 == 0) in
    let after : Wire = record { clock = false; line = level; taken = w.taken ++ level ∷ [] } in
    let rest = sample-shift_bits n (u8 (b <<< 1)) after refl in
    rw low (rest.0 ∙ append_assoc w.taken (level ∷ []) (bits n (u8 (b <<< 1))), rest.1)

byte_of : List Bool → ℕ
unfolding bytes_of
byte_of ls = elim (bytes_of ls) [ [] ↦ 0 | b ∷ bs ↦ b ]

bytes_of-bits :
    (b : ℕ) (rest : List Bool) → b < 256 → bytes_of (bits 8 b ++ rest) ≡ b ∷ bytes_of rest
unfolding bytes_of bits holds_below byte_of
bytes_of-bits b rest h =
    ap (λ t. t ∷ bytes_of rest) (byte_table 256 (λ k. byte_of (bits 8 k)) (λ k. k) b refl h)

taken_bits : List ℕ → List Bool
taken_bits [] = []
taken_bits (b ∷ bs) = bits 8 b ++ taken_bits bs

bytes_of-taken_bits : (bs : List ℕ) → All IsByte bs → bytes_of (taken_bits bs) ≡ bs
unfolding taken_bits
bytes_of-taken_bits [] h = unfold bytes_of in refl
bytes_of-taken_bits (b ∷ bs) (h, rest) =
    bytes_of-bits b (taken_bits bs) h ∙ ap (λ t. b ∷ t) (bytes_of-taken_bits bs rest)

sample-write_pins :
    (bs : List ℕ) (w : Wire)
    → w.clock ≡ false
    → ((sample (write_pins bs) w).taken ≡ w.taken ++ taken_bits bs)
      × ((sample (write_pins bs) w).clock ≡ false)
unfolding sample write_pins taken_bits
sample-write_pins [] w low = (sym (append-nil w.taken), low)
sample-write_pins (b ∷ bs) w low =
    let byte = sample-shift_bits 8 b w low in
    let rest = sample-write_pins bs (sample (shift_bits 8 b) w) byte.1 in
    rw (sample-append (shift_bits 8 b) (write_pins bs) w) (
      rest.0
          ∙ ap (λ t. t ++ taken_bits bs) byte.0
          ∙ append_assoc w.taken (bits 8 b) (taken_bits bs),
      rest.1,
    )

-- With the clock low at first, a part that takes in the data line at each rising edge of the
-- clock, eight to a byte and the highest first, gets exactly the bytes that were written, in order,
-- and the clock is low again.
pub bytes_of-write_pins :
    (bs : List ℕ) (level : Bool)
    → All IsByte bs
    → let w = sample (write_pins bs) (record { clock = false; line = level; taken = [] }) in
      (bytes_of w.taken ≡ bs) × (w.clock ≡ false)
bytes_of-write_pins bs level h =
    let over = sample-write_pins bs (record { clock = false; line = level; taken = [] }) refl in
    (ap bytes_of over.0 ∙ bytes_of-taken_bits bs h, over.1)
