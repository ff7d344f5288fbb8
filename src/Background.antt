-- ===== src/Background.antt =====
-- crates/xdg-desktop-portal-atrium/src/background.rs: consent and autostart.
pub mod Request
pub mod Grant
pub mod LineLaws
pub mod EntryLaws
pub mod BodyLaws
pub mod GrantLaws
pub mod Tests
