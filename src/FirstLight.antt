-- ===== src/FirstLight.antt =====
-- src/display_bringup.cpp: the first light of the display, on pins that are switched in software.
pub mod Pins
pub mod Pattern
mod Tests
