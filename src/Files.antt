-- ===== src/Files.antt =====
-- crates/xdg-desktop-portal-atrium/src/files.rs: file URIs.
pub mod Uri
pub mod UriLaws
