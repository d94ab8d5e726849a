-- ===== src/Keypad.antt =====
-- lib/Keypad: the matrix scanner and the input layer above it.
pub mod Tca8418
pub mod InputLayer
