-- ===== src/Inhibit.antt =====
-- crates/xdg-desktop-portal-atrium/src/inhibit.rs: inhibitions and session monitors.
pub mod Registry
pub mod Served
pub mod RegistryLaws
pub mod Histories
pub mod ServedLaws
pub mod Tests
