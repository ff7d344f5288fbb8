-- ===== src/Cast/SwitchLaws.antt =====
-- cast/state.rs: how frames are delivered after PipeWire has fixated a format.
use xdg_desktop_portal_aegis.Prelude.{
  ℕ, ◌≡◌, ◌≢◌, Bool, true, false, Option, some, is_empty, ◌>>◌, ◌>>=◌,
}
use xdg_desktop_portal_aegis.Cast.Format.{
  AnnouncedFormat, dmabuf, bgra8, rgba8, wire_dmabuf, StreamPixelFormat,
}
use xdg_desktop_portal_aegis.Cast.Transport.{
  as_shm, as_dmabuf, cpu_mappable, StreamData, offer_modifier,
}
use xdg_desktop_portal_aegis.Cast.Switch.{is_dmabuf, wants_dmabuf}

-- The compositor streams shared memory where it is not asked for dmabufs.
abbrev pub IsReadback : StreamPixelFormat → Type 0
IsReadback bgra8 = Unit
IsReadback rgba8 = Unit
IsReadback (wire_dmabuf drm modifier) = ⊥

-- The fixated modifier is the stream's, and there are slots to forward.
abbrev pub IsForwardable : AnnouncedFormat → Option ℕ → Bool → Type 0
IsForwardable (dmabuf drm modifier f) (some fixated) no_slots =
    (fixated ≡ modifier) × (no_slots ≡ false)
IsForwardable _ _ no_slots = ⊥

-- How frames reach the consumer: as they are; by a copy of pixels that the CPU can read; where a
-- stream of shared memory was just switched to dmabufs, as the compositor then announced; or, where
-- the consumer fixated an offer that is not the one for the dmabuf stream and its slots, by a copy
-- of that stream.
pub data IsDelivered (fixated : Option ℕ) (d e : StreamData) : Type 0 where
  zero_copy :
      e.negotiation.mode ≡ as_dmabuf
      → IsForwardable e.transport.announced fixated (is_empty e.transport.slot_files)
      → IsDelivered fixated d e
  by_copy : e.negotiation.mode ≡ as_shm → cpu_mappable e.transport ≡ true → IsDelivered fixated d e
  as_announced :
      e.negotiation.mode ≡ as_shm
      → is_dmabuf d.transport.announced ≡ false
      → wants_dmabuf d.transport.offered_modifier fixated ≡ true
      → IsDelivered fixated d e
  stale_offer :
      e.negotiation.mode ≡ as_shm
      → is_dmabuf d.transport.announced ≡ true
      → wants_dmabuf d.transport.offered_modifier fixated ≡ true
      → d.transport.offered_modifier ≢ offer_modifier d.transport.announced d.transport.slot_files
      → IsDelivered fixated d e
