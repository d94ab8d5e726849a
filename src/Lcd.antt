-- ===== src/Lcd.antt =====
-- lib/SharpLcd: the memory LCD driver and the host-side panel that decodes its byte stream.
pub mod SharpLcd
pub mod VirtualPanel
pub mod Dirty
pub mod Pixels
pub mod Wire
pub mod Sync
pub mod Draw
pub mod Session
pub mod Fill
pub mod Area
pub mod Text
pub mod TextCalls
pub mod Utf8
pub mod Search
pub mod Glyphs
pub mod TextLaws
pub mod Braille
pub mod Walks
mod Tests
