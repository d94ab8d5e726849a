-- ===== src/App/Diag.antt =====
-- src/main.cpp: `build_diag_body`, the one line of diagnostics in a reply. `float`, `lroundf` and
-- the product with ten are parameters; what the radio reports is in them.
use thicket_firmware.Base.{
  ℕ, ◌+◌, ◌-◌, ◌/◌, ◌%◌, Bool, ◌∷◌, ◌++◌, length, take, if◌then◌else◌, codes, ℤ, pos, negsuc,
  pos_part, neg_part, ltb_ℤ,
}
use thicket_firmware.Base.Decimal.{decimal, decimal_ℤ}
use thicket_firmware.App.Platform.{Bytes}

abbrev pub reply_content_budget : ℕ
reply_content_budget = 48

abbrev pub body_buf : ℕ
body_buf = 72

-- `snprintf` into a buffer: the length that the text has, and what of it is stored.
unfoldable pub snprintf : ℕ → Bytes → ℕ × Bytes
snprintf size text = (length text, take (size - 1) text)

-- `if (r < lo) r = lo; else if (r > hi) r = hi;`
unfoldable pub clamp : ℤ → ℤ → ℤ → ℤ
clamp lo hi r = if ltb_ℤ r lo then lo else if ltb_ℤ hi r then hi else r

unfoldable pub rssi_text : ℤ → Bytes
unfolding snprintf clamp
rssi_text r = (snprintf 8 (decimal_ℤ (clamp (negsuc 199) (pos 20) r))).1

-- Sign, whole part, point, tenths; the sign is of the clamped number.
unfoldable pub tenths_text : ℤ → Bytes
tenths_text t =
    let mag = pos_part t + neg_part t in
    (if ltb_ℤ t (pos 0) then b'-' else b'+') ∷ (decimal (mag / 10) ++ b'.' ∷ decimal (mag % 10))

unfoldable pub snr_text : ℤ → Bytes
unfolding snprintf clamp
snr_text t = (snprintf 10 (tenths_text (clamp (negsuc 299) (pos 300) t))).1

unfoldable pub diag_text : ℕ → ℕ → Bytes → Bytes → Bytes → Bytes
diag_text counter seconds rssi snr id =
    codes "#"
    ++ (decimal counter
        ++ (codes " up"
            ++ (decimal seconds
                ++ (codes "s r" ++ (rssi ++ (codes " s" ++ (snr ++ (codes " id" ++ id))))))))

module _ (Float : Type 0) (lroundf : Float → ℤ) (times_ten : Float → Float) where
  -- `hex` is the text of the hash of the identity.
  unfoldable pub build_diag_body : ℕ → ℕ → Bytes → ℕ → Bool → Float → Float → ℕ × Bytes
  unfolding snprintf diag_text
  build_diag_body counter millis hex out_size signal_valid rssi snr =
      let rssi_buf = if signal_valid then rssi_text (lroundf rssi) else codes "?" in
      let snr_buf = if signal_valid then snr_text (lroundf (times_ten snr)) else codes "?" in
      snprintf out_size (diag_text counter (millis / 1000) rssi_buf snr_buf (take 8 hex))
