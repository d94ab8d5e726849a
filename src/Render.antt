-- ===== src/Render.antt =====
-- lib/MicronRender: pages laid out on the display.
pub mod State
pub mod Page
pub mod Faces
pub mod Run
pub mod Wrapping
pub mod Events
pub mod Fields
pub mod Tables
pub mod Buffer
pub mod Collect
pub mod Flush
pub mod Words
pub mod Lines
pub mod Placed
pub mod Prose
pub mod Layout
pub mod Ready
pub mod Texts
pub mod Steps
pub mod Inputs
pub mod StartsInside
pub mod Literal
pub mod Window
pub mod Missing
pub mod Ink
pub mod Rounds
pub mod Divider
pub mod Links
pub mod Heading
pub mod Session
pub mod Replay
pub mod Compose
pub mod Endless
pub mod Samples
mod Tests
mod PageTests
mod ComposeTests
