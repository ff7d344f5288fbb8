-- ===== src/Runtime.antt =====
-- crates/atrium-portal-runtime/src/lib.rs: the portal's request objects and their cancellation.
pub mod Tracker
pub mod TrackerLaws
pub mod Tests
