-- ===== src/Access.antt =====
-- crates/xdg-desktop-portal-atrium/src/access.rs: the generic consent dialog.
pub mod Dialog
pub mod Tests
