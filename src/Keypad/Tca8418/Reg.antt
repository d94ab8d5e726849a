-- ===== src/Keypad/Tca8418/Reg.antt =====
-- lib/Keypad/src/Tca8418.h: register addresses, bit masks and the fixed matrix geometry.
use thicket_firmware.Base.{ℕ, ◌<<<◌}

abbrev pub cfg : ℕ
cfg = 0x01

abbrev pub int_stat : ℕ
int_stat = 0x02

abbrev pub key_lck_ec : ℕ
key_lck_ec = 0x03

abbrev pub key_event_a : ℕ
key_event_a = 0x04

abbrev pub kp_gpio1 : ℕ
kp_gpio1 = 0x1D

abbrev pub kp_gpio2 : ℕ
kp_gpio2 = 0x1E

abbrev pub kp_gpio3 : ℕ
kp_gpio3 = 0x1F

abbrev pub debounce_dis1 : ℕ
debounce_dis1 = 0x29

abbrev pub cfg_ke_ien : ℕ
cfg_ke_ien = 1 <<< 0

abbrev pub cfg_ovr_flow_ien : ℕ
cfg_ovr_flow_ien = 1 <<< 3

abbrev pub cfg_ovr_flow_m : ℕ
cfg_ovr_flow_m = 1 <<< 5

abbrev pub int_k : ℕ
int_k = 1 <<< 0

abbrev pub int_ovr_flow : ℕ
int_ovr_flow = 1 <<< 3

abbrev pub rows_max : ℕ
rows_max = 8

abbrev pub cols_max : ℕ
cols_max = 10

abbrev pub gpi_first : ℕ
gpi_first = 97
