-- ===== src/FileChooser.antt =====
-- crates/xdg-desktop-portal-atrium/src/file_chooser.rs: the served file chooser.
pub mod Options
pub mod Pick
pub mod PickLaws
pub mod Tests
