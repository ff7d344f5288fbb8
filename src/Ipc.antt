-- ===== src/Ipc.antt =====
-- crates/atrium-portal-ipc/src/: the connection to the compositor, of which the framing is modelled.
pub mod Codec
pub mod CodecLaws
pub mod Tests
