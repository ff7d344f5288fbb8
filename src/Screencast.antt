-- ===== src/Screencast.antt =====
-- crates/xdg-desktop-portal-atrium/src/screencast.rs: source selection and the start of a cast.
-- What other processes answer during a call (the compositor, the chooser's process, the cast
-- thread, a Close of the request) is a record of answers that the call takes.
pub mod Options
pub mod Select
pub mod Consent
pub mod Start
pub mod Tests
