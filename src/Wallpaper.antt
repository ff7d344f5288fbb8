-- ===== src/Wallpaper.antt =====
-- crates/xdg-desktop-portal-atrium/src/wallpaper.rs: the served wallpaper.
pub mod Request
pub mod Set
pub mod SetLaws
pub mod Tests
