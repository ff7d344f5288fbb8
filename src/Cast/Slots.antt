-- ===== src/Cast/Slots.antt =====
-- cast/publish.rs and cast/mod.rs: the `process` callback, and the callbacks that add and remove
-- pool buffers and that see the stream reach Streaming.
use xdg_desktop_portal_aegis.Prelude.{
  ℕ, suc, Bool, true, false, not, Option, none, some, List, [], ◌∷◌, is_some, is_none, get_elem?,
  retain, ◌==◌, if◌then◌else◌,
}
use xdg_desktop_portal_aegis.Cast.Frame.{FramePayload, descriptor, of_slot}
use xdg_desktop_portal_aegis.Cast.Copy.{Bytes}
use xdg_desktop_portal_aegis.Cast.Transport.{
  forwarding_eligible, SlotBinding, StreamSlot, cpu_mappable, StreamData, release_slot,
}
use xdg_desktop_portal_aegis.Cast.Publish.{
  FileView, Copied, count_drop, copy_into_pool, slot_of, rebind, is_in_flight, set_in_flight,
  reclaim_returned_buffers,
}

-- A slot's buffer is queued as it is.
abbrev pub forward_slot : ℕ → ℕ → StreamData → StreamData
forward_slot slot raw d = record (rebind slot (set_in_flight true) d) {
  sequence = suc d.sequence;
  queued = raw ∷ d.queued;
}

abbrev pub after_copy : Option Copied → Option StreamData
after_copy none = none
after_copy (some c) = some c.after

abbrev pub released_after : ℕ → Option StreamData → Option StreamData
released_after slot none = none
released_after slot (some d) = some (release_slot slot d)

abbrev pub no_longer_pending : Option StreamData → Option StreamData
no_longer_pending none = none
no_longer_pending (some d) = some (record d { pending = false })

-- Only a copy that found a buffer, or that never can, ends the wait.
abbrev pub settle_copy : Option Copied → Option StreamData
settle_copy none = none
settle_copy (some c) = if c.taken then some (record (c.after) { pending = false }) else some c.after

module _ (files : ℕ → FileView) (memory : ℕ → Option Bytes) where
  -- The copy of a slot's pixels, and the release behind it.
  abbrev pub copy_slot : ℕ → List ℕ → StreamData → Option StreamSlot → Option StreamData
  copy_slot slot free d none = none
  copy_slot slot free d (some s) = released_after slot (
      after_copy
        (copy_into_pool memory (files s.file) s.stride d.transport.width d.transport.height free d))

  abbrev pub publish_unbound : ℕ → List ℕ → StreamData → Option StreamData
  publish_unbound slot free d =
      if not (cpu_mappable d.transport)
      then some (release_slot slot (count_drop d))
      else copy_slot slot free d (get_elem? d.transport.slot_files slot)

  abbrev pub publish_bound : ℕ → List ℕ → StreamData → Bool → Option ℕ → Option StreamData
  publish_bound slot free d true (some raw) = some (forward_slot slot raw d)
  publish_bound slot free d _ _ = publish_unbound slot free d

  abbrev pub publish_binding : ℕ → List ℕ → StreamData → Option SlotBinding → Option StreamData
  publish_binding slot free d none = some (count_drop d)
  publish_binding slot free d (some b) =
      if b.in_flight
      then some (count_drop d)
      else publish_bound slot free d (forwarding_eligible d.negotiation) b.pool

  unfoldable pub publish_slot : ℕ → List ℕ → StreamData → Option StreamData
  publish_slot slot free d = publish_binding slot free d (get_elem? d.transport.slot_bindings slot)

  abbrev pub publish_frame : List ℕ → StreamData → Option FramePayload → Option StreamData
  publish_frame free d none = some (record d { pending = false })
  publish_frame free d (some (descriptor file stride damage)) =
      settle_copy
        (copy_into_pool memory (files file) stride d.transport.width d.transport.height free d)
  publish_frame free d (some (of_slot slot damage)) = no_longer_pending (publish_slot slot free d)

  abbrev pub publish_pending : List ℕ → StreamData → Option StreamData
  publish_pending free d = if not d.pending then some d else publish_frame free d d.latest

  -- `process_frame`, with the buffers that PipeWire returns and those that it has free after them.
  unfoldable pub process_frame : List ℕ → List ℕ → StreamData → Option StreamData
  process_frame returned free d = publish_pending free (reclaim_returned_buffers returned d)

-- The stream reaches Streaming: the latest frame goes out again.
unfoldable pub on_streaming : StreamData → StreamData
on_streaming d = if is_some d.latest then record d { pending = true } else d

-- The first binding without a buffer gets this one.
unfoldable pub bind_first : ℕ → List SlotBinding → List SlotBinding
bind_first raw [] = []
bind_first raw (b ∷ bs) =
    let later = b ∷ bind_first raw bs in
    if is_none b.pool then record b { pool = some raw } ∷ bs else later

-- The part of `add_buffer` that binds a slot.
unfoldable pub add_buffer : ℕ → StreamData → StreamData
add_buffer raw d =
    if forwarding_eligible d.negotiation
    then record d {
      transport = record (d.transport) { slot_bindings = bind_first raw d.transport.slot_bindings };
    }
    else d

abbrev pub unbind : SlotBinding → SlotBinding
unbind b = record b { pool = none; in_flight = false }

abbrev pub remove_bound : Option ℕ → StreamData → StreamData
remove_bound none d = d
remove_bound (some slot) d =
    if is_in_flight slot d.transport
    then release_slot slot (rebind slot unbind d)
    else rebind slot unbind d

-- The part of `remove_buffer` that is about the stash and the slots.
unfoldable pub remove_buffer : ℕ → StreamData → StreamData
remove_buffer raw d =
    remove_bound (slot_of raw d.transport.slot_bindings)
      (record d { pool = retain (λ p. not (p == raw)) d.pool })
