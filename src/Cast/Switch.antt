-- ===== src/Cast/Switch.antt =====
-- cast/state.rs: `sync_transport`, `apply_fixated_format` and `restart_stream_geometry`. What the
-- compositor answers to a stop and to a start is an argument.
use xdg_desktop_portal_aegis.Prelude.{
  ℕ, Bool, true, false, not, ◌&&◌, ◌||◌, Option, none, some, is_empty, ◌==◌, if◌then◌else◌, Result,
  ok, refuse_if, ◌>>◌, ◌>>=◌,
}
use xdg_desktop_portal_aegis.Cast.Format.{
  VideoFormat, bgrx, bgra, rgbx, rgba, xbgr, abgr, xrgb, argb, AnnouncedFormat, shm, dmabuf,
  spa_format, announced_format, FixatedFormat, CastError, superseded, restart_geometry,
  restart_format,
}
use xdg_desktop_portal_aegis.Cast.Frame.{frame_len}
use xdg_desktop_portal_aegis.Cast.Transport.{
  DeliveryMode, as_shm, as_dmabuf, StreamStarted, Transport, cpu_mappable, swap_restarted,
  offer_modifier, StreamData,
}

abbrev pub is_dmabuf : AnnouncedFormat → Bool
is_dmabuf (shm f) = false
is_dmabuf (dmabuf drm modifier f) = true

-- The offered modifier is the fixated one.
abbrev pub wants_dmabuf : Option ℕ → Option ℕ → Bool
wants_dmabuf (some offered) (some fixated) = fixated == offered
wants_dmabuf _ _ = false

unfoldable pub needs_switch : Bool → Transport → Bool
needs_switch true t = not (is_dmabuf t.announced)
needs_switch false t = is_dmabuf t.announced && not (cpu_mappable t)

abbrev pub video_eq : VideoFormat → VideoFormat → Bool
video_eq bgrx bgrx = true
video_eq bgra bgra = true
video_eq rgbx rgbx = true
video_eq rgba rgba = true
video_eq xbgr xbgr = true
video_eq abgr abgr = true
video_eq xrgb xrgb = true
video_eq argb argb = true
video_eq _ _ = false

-- The checks on the stream that was started instead.
unfoldable pub check_restarted : StreamStarted → Transport → Result CastError (Unit {0})
check_restarted started t = do
  refuse_if (not (started.width == t.width) || not (started.height == t.height)) restart_geometry
  announced ← announced_format started.format
  refuse_if (not (video_eq (spa_format announced) (spa_format t.announced))) restart_format

-- Frames of the superseded stream are never published, and no release is owed for them.
abbrev pub with_restarted : Transport → StreamData → StreamData
with_restarted t d = record d { transport = t; latest = none; pending = false }

abbrev pub mode_for : AnnouncedFormat → Option ℕ → Bool → DeliveryMode
mode_for (dmabuf drm modifier f) (some fixated) no_slots =
    if fixated == modifier && not no_slots then as_dmabuf else as_shm
mode_for _ _ no_slots = as_shm

abbrev pub with_mode : DeliveryMode → StreamData → StreamData
with_mode mode d = record d { negotiation = record (d.negotiation) { mode = mode } }

abbrev pub reoffered : AnnouncedFormat → Transport → Transport
reoffered announced t = record t { offered_modifier = offer_modifier announced t.slot_files }

module _ (stop : Result CastError (Unit {0})) (start : Bool → Result CastError StreamStarted) where
  unfoldable pub switch_transport : Bool → StreamData → Result CastError StreamData
  switch_transport want d = do
    stop
    started ← start want
    check_restarted started d.transport
    swapped ← swap_restarted started want d.transport
    ok (with_restarted swapped.0 d)

  unfoldable pub sync_transport : Option ℕ → StreamData → Result CastError StreamData
  sync_transport fixated d =
      if needs_switch (wants_dmabuf d.transport.offered_modifier fixated) d.transport
      then switch_transport (wants_dmabuf d.transport.offered_modifier fixated) d
      else ok d

  -- `apply_fixated_format`; its error quits the main loop. The differences between the fixated and
  -- the offered format and size are only logged.
  unfoldable pub apply_fixated_format : FixatedFormat → StreamData → Result CastError StreamData
  apply_fixated_format fixated d = do
    e ← sync_transport fixated.modifier d
    ok (
        with_mode
          (mode_for e.transport.announced fixated.modifier (is_empty e.transport.slot_files)) e)

  -- `restart_stream_geometry`, with the stream that the event names.
  unfoldable pub restart_stream_geometry : ℕ → ℕ → ℕ → StreamData → Result CastError StreamData
  restart_stream_geometry stream_id width height d = do
    refuse_if (not (d.transport.stream_id == stream_id)) superseded
    bytes ← frame_len width height
    stop
    started ← start d.transport.uses_dmabuf
    refuse_if (not (started.width == width) || not (started.height == height)) restart_geometry
    swapped ← swap_restarted started d.transport.uses_dmabuf d.transport
    ok (with_restarted (reoffered swapped.1 swapped.0) d)
