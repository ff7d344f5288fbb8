-- ===== src/Notification.antt =====
-- crates/xdg-desktop-portal-atrium/src/notification.rs: parsing of a notification, the book of live
-- ids, and the manager of the notification daemon.
pub mod Parse
pub mod Wire
pub mod ParseLaws
pub mod Live
pub mod LiveLaws
pub mod Daemon
pub mod DaemonLaws
pub mod Runs
pub mod Respawn
pub mod Tests
