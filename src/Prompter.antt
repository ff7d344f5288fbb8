-- ===== src/Prompter.antt =====
-- crates/atrium-portal-prompter/src/lib.rs: the checks of the process contract between the portal
-- and its dialogs. An error is the constructor for its message.
pub mod Choices
pub mod ChoiceLaws
pub mod Source
pub mod Paths
pub mod PathLaws
pub mod FilesLaws
pub mod Files
pub mod Dialogs
pub mod Envelope
pub mod EnvelopeLaws
pub mod Tests
