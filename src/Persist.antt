-- ===== src/Persist.antt =====
-- crates/xdg-desktop-portal-atrium/src/persist.rs: the store of screencast restore tokens.
-- A token is a text; the random source gives its bytes. The JSON text of the store file is the
-- business of a codec that the reader takes as a parameter. `memory` is walked in the order of its
-- owners' first token, where the code walks a `HashMap`, in no fixed order.
pub mod Store
pub mod Token
pub mod Bounds
pub mod Validate
pub mod Disk
pub mod Tests
