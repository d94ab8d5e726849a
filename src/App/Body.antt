-- ===== src/App/Body.antt =====
-- The body of a reply: its length, and what a reader gets back from it.
use thicket_firmware.Base.{
  ℕ, suc, ◌+◌, ◌/◌, ◌%◌, ◌^◌, ◌≤◌, ◌<◌, ◌≡◌, refl, ap, arith, Bool, true, false, ◌∷◌, length, take,
  drop, length-append, length-take, take_all, codes, ℤ, pos, negsuc, pos_part, neg_part,
}
use thicket_firmware.Base.Decimal.{
  decimal, decimal_ℤ, read_number, is_digit, length-digits, read_number-digits,
}
use thicket_firmware.App.Platform.{Bytes}
use thicket_firmware.App.Diag.{
  reply_content_budget, body_buf, snprintf, clamp, rssi_text, tenths_text, snr_text, diag_text,
  build_diag_body,
}

length-decimal : (n j : ℕ) → n < 10 ^ suc j → length (decimal n) ≤ suc j
unfolding decimal
length-decimal n j h = length-digits 10 n j h

clamp_rssi :
    (r : ℤ) → let c = clamp (negsuc 199) (pos 20) r in (pos_part c ≤ 20) × (neg_part c ≤ 200)
unfolding clamp
clamp_rssi r = ground arith

clamp_snr :
    (t : ℤ) → let c = clamp (negsuc 299) (pos 300) t in (pos_part c ≤ 300) × (neg_part c ≤ 300)
unfolding clamp
clamp_snr r = ground arith

length-decimal_ℤ : (r : ℤ) → pos_part r < 1000 → neg_part r < 1000 → length (decimal_ℤ r) ≤ 4
unfolding decimal_ℤ
length-decimal_ℤ (pos n) h k = omega (arith, length-decimal n 2 h)
length-decimal_ℤ (negsuc n) h k = omega (arith, length-decimal (n + 1) 2 (omega arith))

pub length-rssi_text : (r : ℤ) → length (rssi_text r) ≤ 4
unfolding rssi_text snprintf
length-rssi_text r =
    let c = clamp_rssi r in
    let fits =
      length-decimal_ℤ (clamp (negsuc 199) (pos 20) r) (omega (arith, c)) (omega (arith, c)) in
    rw (take_all 7 (decimal_ℤ (clamp (negsuc 199) (pos 20) r)) (omega (arith, fits))) fits

length-tenths_text : (t : ℤ) → pos_part t ≤ 300 → neg_part t ≤ 300 → length (tenths_text t) ≤ 5
unfolding tenths_text
length-tenths_text (pos n) h k =
    rw (length-append (decimal ((n + 0) / 10)) (b'.' ∷ decimal ((n + 0) % 10))) (
      omega (
        arith,
        length-decimal ((n + 0) / 10) 1 (omega arith),
        length-decimal ((n + 0) % 10) 0 (omega arith),
      ))
length-tenths_text (negsuc n) h k =
    rw (length-append (decimal ((0 + suc n) / 10)) (b'.' ∷ decimal ((0 + suc n) % 10))) (
      omega (
        arith,
        length-decimal ((0 + suc n) / 10) 1 (omega arith),
        length-decimal ((0 + suc n) % 10) 0 (omega arith),
      ))

pub length-snr_text : (t : ℤ) → length (snr_text t) ≤ 5
unfolding snr_text snprintf
length-snr_text t =
    let c = clamp_snr t in
    let fits = length-tenths_text (clamp (negsuc 299) (pos 300) t) c.0 c.1 in
    rw (take_all 9 (tenths_text (clamp (negsuc 299) (pos 300) t)) (omega (arith, fits))) fits

length-diag_text :
    (counter seconds : ℕ) (rssi snr id : Bytes)
    → counter < 2 ^ 32
    → seconds < 10 ^ 7
    → length rssi ≤ 4
    → length snr ≤ 5
    → length id ≤ 8
    → length (diag_text counter seconds rssi snr id) ≤ 46
unfolding diag_text
length-diag_text counter seconds rssi snr id hc hs hr hn hi =
    omega (
      arith,
      length-append {0},
      length-decimal counter 9 (omega arith),
      length-decimal seconds 6 hs,
    )

module _ (Float : Type 0) (lroundf : Float → ℤ) (times_ten : Float → Float) where
  -- The parts of the body, as they stand in it.
  pub build_diag_body-text :
      (counter millis : ℕ) (hex : Bytes) (valid : Bool) (rssi snr : Float)
      → counter < 2 ^ 32
      → millis < 2 ^ 32
      → (r : Bytes) × (s : Bytes) × (build_diag_body Float lroundf times_ten counter millis hex
            body_buf valid rssi snr
          ≡ snprintf body_buf (diag_text counter (millis / 1000) r s (take 8 hex)))
        × (length (diag_text counter (millis / 1000) r s (take 8 hex)) ≤ 46)
  unfolding build_diag_body
  build_diag_body-text counter millis hex true rssi snr hc hm =
      let r = rssi_text (lroundf rssi) in
      let s = snr_text (lroundf (times_ten snr)) in
      (
        r,
        s,
        refl,
        length-diag_text counter (millis / 1000) r s (take 8 hex) hc (omega arith)
            (length-rssi_text (lroundf rssi)) (length-snr_text (lroundf (times_ten snr)))
            (rw (length-take 8 hex) (omega arith)),
      )
  build_diag_body-text counter millis hex false rssi snr hc hm = (
    codes "?",
    codes "?",
    refl,
    length-diag_text counter (millis / 1000) (codes "?") (codes "?") (take 8 hex) hc (omega arith)
        (omega arith) (omega arith) (rw (length-take 8 hex) (omega arith)),
  )

  -- What a reader takes from a body: the number after its first byte, and the one three bytes on.
  abbrev pub read_body : Bytes → ℕ × ℕ
  read_body body =
      let counted = read_number 0 (drop 1 body) in (counted.0, (read_number 0 (drop 3 counted.1)).0)

  -- Whatever the radio and the identity's hash are, with a counter and a clock of 32 bits: the
  -- body fits the content of a single packet and is in its buffer whole, with the length that the
  -- function returns.
  pub build_diag_body-fits :
      (counter millis : ℕ) (hex : Bytes) (valid : Bool) (rssi snr : Float)
      → counter < 2 ^ 32
      → millis < 2 ^ 32
      → let body =
          build_diag_body Float lroundf times_ten counter millis hex body_buf valid rssi snr in
        (body.0 ≤ reply_content_budget) × (length body.1 ≡ body.0)
  build_diag_body-fits counter millis hex valid rssi snr hc hm =
      let (r, s, e, fits) = build_diag_body-text counter millis hex valid rssi snr hc hm in
      rw e (
        unfold snprintf in
        (
          omega (arith, fits),
          ap length (
              take_all 71 (diag_text counter (millis / 1000) r s (take 8 hex))
                (omega (arith, fits))),
        ))

  diag_text-read :
      (counter seconds : ℕ) (r s id : Bytes)
      → counter < 10 ^ 10
      → seconds < 10 ^ 10
      → read_body (diag_text counter seconds r s id) ≡ (counter, seconds)
  unfolding diag_text decimal
  diag_text-read counter seconds r s id hc hs =
      rw (read_number-digits 10 counter _ hc)
        (unfold read_number is_digit in rw (read_number-digits 10 seconds _ hs) refl)

  -- With a counter and a clock of 32 bits, a reader of the body gets back the counter and the
  -- seconds that the clock shows, whatever stands behind them.
  pub read_body-build_diag_body :
      (counter millis : ℕ) (hex : Bytes) (valid : Bool) (rssi snr : Float)
      → counter < 2 ^ 32
      → millis < 2 ^ 32
      → read_body
          (build_diag_body Float lroundf times_ten counter millis hex body_buf valid rssi snr).1
        ≡ (counter, millis / 1000)
  read_body-build_diag_body counter millis hex valid rssi snr hc hm =
      let (r, s, e, fits) = build_diag_body-text counter millis hex valid rssi snr hc hm in
      let whole =
        take_all 71 (diag_text counter (millis / 1000) r s (take 8 hex)) (omega (arith, fits)) in
      rw e (
        unfold snprintf in
        rw whole
          (diag_text-read counter (millis / 1000) r s (take 8 hex) (omega arith) (omega arith)))
