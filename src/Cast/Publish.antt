-- ===== src/Cast/Publish.antt =====
-- cast/copy.rs, cast/publish.rs and the buffer callbacks of cast/mod.rs: `copy_into_pool`, reclaiming
-- and publishing. The buffers that PipeWire returns, the files' contents and the buffers' memory
-- are arguments; `none` is a panic.
use xdg_desktop_portal_aegis.Prelude.{
  ℕ, zero, suc, ◌+◌, ◌*◌, ◌-◌, Bool, true, false, ◌||◌, Option, none, some, List, [], ◌∷◌, ◌++◌,
  length, ltb, ◌==◌, if◌then◌else◌,
}
use xdg_desktop_portal_aegis.Cast.Frame.{max_frame_bytes}
use xdg_desktop_portal_aegis.Cast.Copy.{Bytes, copy_rows}
use xdg_desktop_portal_aegis.Cast.Transport.{SlotBinding, Transport, StreamData, release_slot}

-- A file, as `metadata` and `mmap` show it.
pub data FileView : Type 0 where
  unstatable : FileView
  unmappable : ℕ → FileView
  mapped : Bytes → FileView

abbrev pub count_drop : StreamData → StreamData
count_drop d = record d { dropped_frames = suc d.dropped_frames }

-- The copy is written, and the buffer goes to PipeWire.
abbrev pub queue_copy : ℕ → StreamData → StreamData
queue_copy raw d = record d { sequence = suc d.sequence; queued = raw ∷ d.queued }

abbrev pub stash : ℕ → StreamData → StreamData
stash raw d = record d { pool = d.pool ++ (raw ∷ []) }

-- The oldest stashed buffer, or one that PipeWire has free; the buffer, the stash behind it and the
-- free ones behind it.
abbrev pub take_buffer : List ℕ → List ℕ → Option (ℕ × List ℕ × List ℕ)
take_buffer (raw ∷ pool) free = some (raw, pool, free)
take_buffer [] (raw ∷ free) = some (raw, [], free)
take_buffer [] [] = none

-- What a call returns, the bytes that went out in a buffer, PipeWire's free buffers and the state.
pub record Copied : Type 0 where
  pub taken : Bool
  pub picture : Option Bytes
  pub free : List ℕ
  pub after : StreamData

abbrev pub refused : List ℕ → StreamData → Option Copied
refused free d = some (record { taken = true; picture = none; free = free; after = d })

abbrev pub published : ℕ → List ℕ → StreamData → Option Bytes → Option Copied
published raw free d none = none
published raw free d (some picture) =
    some (record { taken = true; picture = some picture; free = free; after = queue_copy raw d })

-- The test on `needed`.
abbrev pub too_small : ℕ → ℕ → ℕ → ℕ → Bool
too_small len stride row_bytes height =
    ltb len (stride * (height - 1) + row_bytes)
    || ltb max_frame_bytes (stride * (height - 1) + row_bytes)

-- `memory raw` is the mapped memory of a buffer, or `none` where its pointer is null.
module _ (memory : ℕ → Option Bytes) where
  abbrev pub into_buffer :
      Bytes → ℕ → ℕ → ℕ → ℕ → List ℕ → StreamData → Option Bytes → Option Copied
  into_buffer src stride row_bytes height raw free d none = refused free (count_drop (stash raw d))
  into_buffer src stride row_bytes height raw free d (some dest) =
      if ltb (length dest) (height * row_bytes)
      then refused free (count_drop (stash raw d))
      else published raw free d (copy_rows src stride dest row_bytes height)

  abbrev pub with_buffer :
      Bytes → ℕ → ℕ → ℕ → List ℕ → StreamData → Option (ℕ × List ℕ × List ℕ) → Option Copied
  with_buffer src stride row_bytes height free d none =
      some (record { taken = false; picture = none; free = free; after = d })
  with_buffer src stride row_bytes height free d (some (raw, pool, rest)) =
      into_buffer src stride row_bytes height raw rest (record d { pool = pool }) (memory raw)

  abbrev pub copy_view : ℕ → ℕ → ℕ → List ℕ → StreamData → FileView → Option Copied
  copy_view stride row_bytes height free d unstatable = refused free (count_drop d)
  copy_view stride row_bytes height free d (unmappable len) =
      if too_small len stride row_bytes height
      then refused free (count_drop d)
      else refused free
          (record d { dropped_frames = suc d.dropped_frames; warned_unmappable = true })
  copy_view stride row_bytes height free d (mapped src) =
      if too_small (length src) stride row_bytes height
      then refused free (count_drop d)
      else with_buffer src stride row_bytes height free d (take_buffer d.pool free)

  -- `copy_into_pool`. The height of a stream is not zero, as `frame_len` makes sure.
  unfoldable pub copy_into_pool : FileView → ℕ → ℕ → ℕ → List ℕ → StreamData → Option Copied
  copy_into_pool view stride width height free d = copy_view stride (width * 4) height free d view

-- `slot_bindings.iter_mut().enumerate().find(…)`, the binding of a buffer: its slot.
abbrev pub is_bound_to : ℕ → Option ℕ → Bool
is_bound_to raw none = false
is_bound_to raw (some p) = p == raw

unfoldable pub slot_of : ℕ → List SlotBinding → Option ℕ
slot_of raw [] = none
slot_of raw (b ∷ bs) =
    if is_bound_to raw b.pool
    then some 0
    else elim (slot_of raw bs) [ none ↦ none | some i ↦ some (suc i) ]

-- A write through the binding of a slot.
unfoldable pub update_binding :
    ℕ → (SlotBinding → SlotBinding) → List SlotBinding → List SlotBinding
update_binding i f [] = []
update_binding zero f (b ∷ bs) = f b ∷ bs
update_binding (suc i) f (b ∷ bs) = b ∷ update_binding i f bs

abbrev pub rebind : ℕ → (SlotBinding → SlotBinding) → StreamData → StreamData
rebind slot f d = record d {
  transport = record (d.transport) {
    slot_bindings = update_binding slot f d.transport.slot_bindings;
  };
}

abbrev pub flying : List SlotBinding → ℕ → Bool
flying [] slot = false
flying (b ∷ bs) zero = b.in_flight
flying (b ∷ bs) (suc slot) = flying bs slot

-- Whether the slot has a binding, with the flag `in_flight`.
abbrev pub is_in_flight : ℕ → Transport → Bool
is_in_flight slot t = flying t.slot_bindings slot

abbrev pub set_in_flight : Bool → SlotBinding → SlotBinding
set_in_flight flag b = record b { in_flight = flag }

-- One buffer that PipeWire returns.
abbrev pub reclaim_bound : ℕ → Option ℕ → StreamData → StreamData
reclaim_bound raw none d = stash raw d
reclaim_bound raw (some slot) d =
    if is_in_flight slot d.transport
    then release_slot slot (rebind slot (set_in_flight false) d)
    else d

-- `reclaim_returned_buffers`, on the buffers that PipeWire returns.
unfoldable pub reclaim_returned_buffers : List ℕ → StreamData → StreamData
reclaim_returned_buffers [] d = d
reclaim_returned_buffers (raw ∷ more) d =
    reclaim_returned_buffers more (reclaim_bound raw (slot_of raw d.transport.slot_bindings) d)
