-- ===== src/Lib.antt =====
-- Verification of xdg-desktop-portal-atrium, the portal backend of the Atrium desktop: a model of
-- its core logic and the theorems that make it correct. Paths are from the repository's root.
--
-- The program is a D-Bus service. A client's request reaches an interface, which checks its options
-- and hands it to a worker; the worker asks the user through a prompter process, asks the compositor
-- for consent or for a capture, and keeps what it granted in shared registries behind locks.
--
-- Files, by part of the program:
--   Prelude        list, text, map and result helpers, with the Boolean tests. A text is a list of
--                  code points, a map an association list with one entry for a key.
--   Session        crates/xdg-desktop-portal-atrium/src/session.rs: SessionRegistry as a record with
--                  its map; one function per method, errors as constructors of SessionError.
--   Persist        crates/xdg-desktop-portal-atrium/src/persist.rs: RestoreStore with its disk and
--                  memory tokens. A call that writes the store file returns what it writes.
--   Screencast     crates/xdg-desktop-portal-atrium/src/screencast.rs: parse_select_options,
--                  validate_select, select_sources, start_cast, close_session. The answers of the
--                  compositor, of the chooser's process, of the cast thread and of the request
--                  tracker are the fields of a record that the call takes; start_cast is two
--                  functions, since other calls run between its reservation and its end.
--   Prompter       crates/atrium-portal-prompter/src/lib.rs: the envelopes, every request and response
--                  with its validation, and unique_child and finish_paths over Unix paths.
--   Apps           crates/xdg-desktop-portal-atrium/src/apps/: glob_matches, the readers of desktop
--                  files, list files and globs2, split_exec, expand_exec, launch's checks,
--                  percent_decode, update_default_applications.
--   Notification   crates/xdg-desktop-portal-atrium/src/notification.rs and
--                  crates/atrium-portal-prompter/src/notify.rs: parse_notification, LiveNotifications,
--                  DaemonManager and Notification::validate. The daemon's processes answer by a
--                  script, a list of answers in the order in which the code asks.
--   Ipc            crates/atrium-portal-ipc/src/codec.rs: write_msg and read_msg, the frames to and
--                  from the compositor.
--   Runtime        crates/atrium-portal-runtime/src/lib.rs: RequestTracker, register, finish and
--                  dispatch; the calls of other tasks are a list of events.
--   Inhibit        crates/xdg-desktop-portal-atrium/src/inhibit.rs: InhibitRegistry, apply_inhibit, the
--                  served methods and the logind client. The open descriptors are a field of the
--                  state; a dropped value closes its descriptor.
--   Cast           crates/xdg-desktop-portal-atrium/src/cast/: validate_frame, frame_len, the formats,
--                  Transport and its restarts, copy_rows, copy_into_pool, process_frame, and the
--                  callbacks that bind and unbind pool buffers. Releases and queued buffers are
--                  logs in the state.
--   Files          crates/xdg-desktop-portal-atrium/src/files.rs: file_uri and path_from_file_uri.
--   FileChooser    crates/xdg-desktop-portal-atrium/src/file_chooser.rs: parse_options, the requests of
--                  its three methods, validate_request, run_pick, build_results, the worker's limit.
--   Wallpaper      crates/xdg-desktop-portal-atrium/src/wallpaper.rs: parse_request, read_image,
--                  staged_name, preview_consent, run_set_staged, prune_staging. The state is the
--                  staging directory; how write_atomic ends and the compositor answers are inputs.
--   Background     crates/xdg-desktop-portal-atrium/src/background.rs: parse_request, consent_body,
--                  quote_exec_arg, render_desktop_entry, write_autostart_entry, run_request. The state is
--                  the autostart folder, a map from file names to contents.
--   Access         crates/xdg-desktop-portal-atrium/src/access.rs: dialog_request and run_dialog.
--
-- The parts meet in select_sources, which uses the session registry, the restore store and the
-- prompter's validation, and in parse_notification, whose results the prompter's daemon validates.
-- In the cast, frames that validate_frame accepts go to replace_latest and from there to
-- process_frame; the answer of finish_paths goes through validate_for, and run_pick tells the client
-- of it as URIs.
--
-- Fuel. The loop of glob_matches takes as fuel a number computed from both lengths that exceeds its
-- rounds. ensure_daemon and send call each other and the source sets no bound to it, so the model
-- takes fuel there, and a run that needs more has no result. The loop of unique_child takes the
-- 4294967295 turns that the source gives it.
--
-- Parameters: the JSON codecs of the store file and of the frames, String::from_utf8,
-- from_utf8_lossy and into_bytes, the length of an encoded request, the lower case of a text, the
-- random bytes of a token, the answers of symlink_metadata, of logind, of the object server and of
-- the compositor, PipeWire's buffers, the contents of files. The mimeapps.list that an edit starts
-- from is given as text.
--
-- Not modelled: D-Bus and process plumbing, threads and their locks (a call is one step, but for
-- start_cast, inhibit and dispatch), the cast's main loop and the pods that it offers, the
-- compositor's IPC client, and the other portal interfaces.
pub mod Prelude
pub mod Session
pub mod Persist
pub mod Prompter
pub mod Screencast
pub mod Apps
pub mod Notification
pub mod Ipc
pub mod Runtime
pub mod Inhibit
pub mod Cast
pub mod Files
pub mod FileChooser
pub mod Wallpaper
pub mod Background
pub mod Access
