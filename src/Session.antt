-- ===== src/Session.antt =====
-- crates/xdg-desktop-portal-atrium/src/session.rs: the registry of screencast sessions.
-- A session object's path and an application's id are texts; the stop socket and the cast thread
-- are the numbers of the resources that the session holds. An error is the constructor for its
-- message.
pub mod Registry
pub mod Lifecycle
pub mod Limits
pub mod Tests
