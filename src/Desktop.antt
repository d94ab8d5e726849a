-- ===== src/Desktop.antt =====
-- desktop: the page browser on a host.
pub mod Resolve
pub mod Browser
pub mod Navigate
pub mod Held
pub mod LiveFetch
pub mod Fetched
mod Tests
