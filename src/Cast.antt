-- ===== src/Cast.antt =====
-- crates/xdg-desktop-portal-atrium/src/cast: the cast thread between the compositor's stream and
-- PipeWire. Files and pool buffers are numbers; memory is lists of bytes.
pub mod Format
pub mod Frame
pub mod FrameLaws
pub mod Copy
pub mod CopyLaws
pub mod Meta
pub mod Transport
pub mod Switch
pub mod SwitchLaws
pub mod Publish
pub mod Slots
pub mod Ownership
pub mod Reclaimed
pub mod Pictures
pub mod Processed
pub mod Histories
pub mod Tests
