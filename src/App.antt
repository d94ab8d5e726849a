-- ===== src/App.antt =====
-- src/main.cpp: the application of the device.
pub mod Platform
pub mod Vault
pub mod Attempts
pub mod Reboots
pub mod Diag
pub mod Body
pub mod Device
pub mod Sending
pub mod Numbered
pub mod Peers
pub mod Replies
pub mod Announces
pub mod Silicon
pub mod Autosend
pub mod LowRam
pub mod Setup
pub mod Bringup
pub mod Blinks
pub mod Figures
pub mod Verdict
mod Samples
mod Tests
