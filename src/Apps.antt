-- ===== src/Apps.antt =====
-- crates/xdg-desktop-portal-atrium/src/apps/: desktop entries, file-name globs, `Exec` lines and
-- the association file. A file that has been read is its text.
pub mod Glob
pub mod GlobLaws
pub mod Exec
pub mod ExecLaws
pub mod Uri
pub mod MimeApps
pub mod Desktop
pub mod Entries
pub mod Lines
pub mod MimeAppsLaws
pub mod MimeEdit
pub mod Pieces
pub mod MimeText
pub mod Tests
