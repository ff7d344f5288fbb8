-- ===== src/Cast/Tests.antt =====
-- Examples of a small slot stream: two slots, pictures of one column and two rows.
use xdg_desktop_portal_aegis.Prelude.{
  ℕ, zero, suc, ◌+◌, ◌*◌, ◌≤◌, ◌≡◌, refl, Bool, Option, true, false, none, some, [], ◌∷◌, Result,
  ok, err, arith,
}
use xdg_desktop_portal_aegis.Session.Registry.{monitor}
use xdg_desktop_portal_aegis.Cast.Format.{
  bgra8, bgrx, shm, dmabuf, wire_dmabuf, CastError, stop_failed, FixatedFormat,
}
use xdg_desktop_portal_aegis.Cast.Frame.{
  StreamFrame, in_slot, of_slot, validate_frame, validate_slot,
}
use xdg_desktop_portal_aegis.Cast.FrameLaws.{IsUsable, validate_frame-IsUsable}
use xdg_desktop_portal_aegis.Cast.Copy.{Bytes}
use xdg_desktop_portal_aegis.Cast.Transport.{
  as_shm, StreamSlot, StreamStarted, Transport, unbound, StreamData, replace_latest,
}
use xdg_desktop_portal_aegis.Cast.Publish.{FileView, mapped, Copied, copy_into_pool}
use xdg_desktop_portal_aegis.Cast.Pictures.{IsCopy, copy_into_pool_picture}
use xdg_desktop_portal_aegis.Cast.Ownership.{IsSettled, owed}
use xdg_desktop_portal_aegis.Cast.Histories.{Reaches, here, next, arrives, Reaches-IsSettled}

abbrev slot_file : StreamSlot
slot_file = record { file = 3; stride = 4; byte_len = 8 }

abbrev two_slots : Transport
two_slots = record {
  stream_id = 1;
  target = monitor none;
  cursor = 1;
  uses_dmabuf = true;
  width = 1;
  height = 2;
  announced = dmabuf 875713112 0 bgrx;
  offered_modifier = some 0;
  slot_files = slot_file ∷ slot_file ∷ [];
  slot_bindings = unbound ∷ unbound ∷ [];
}

abbrev started_data : StreamData
started_data = record {
  latest = none;
  pending = false;
  transport = two_slots;
  negotiation = record { mode = as_shm; consumer_data_types = none };
  pool = 9 ∷ [];
  sequence = 0;
  dropped_frames = 0;
  warned_unmappable = false;
  releases = [];
  queued = [];
}

started_data-IsSettled : IsSettled started_data []
started_data-IsSettled = record {
  has_table = refl;
  sized = refl;
  within = λ slot h. absurd (ground (arith, h));
  once = λ slot. nothing_owed slot;
  balance = λ slot. nothing_sent slot;
}
  where
    nothing_owed : (slot : ℕ) → owed slot started_data ≤ 1
    nothing_owed zero = omega arith
    nothing_owed (suc zero) = omega arith
    nothing_owed (suc (suc slot)) = omega arith

    nothing_sent : (slot : ℕ) → 0 ≡ 0 + owed slot started_data
    nothing_sent zero = refl
    nothing_sent (suc zero) = refl
    nothing_sent (suc (suc slot)) = refl

first_frame : Reaches started_data (replace_latest (of_slot 1 []) started_data) (1 ∷ [])
first_frame = next here (arrives (of_slot 1 []) (omega arith, refl))

Reaches-IsSettled_example : IsSettled (replace_latest (of_slot 1 []) started_data) (1 ∷ [])
Reaches-IsSettled_example = Reaches-IsSettled started_data-IsSettled first_frame

abbrev buffers : ℕ → Option Bytes
buffers raw = some (0 ∷ 0 ∷ 0 ∷ 0 ∷ 0 ∷ 0 ∷ 0 ∷ 0 ∷ [])

abbrev pixels : FileView
pixels = mapped (1 ∷ 2 ∷ 3 ∷ 4 ∷ 0 ∷ 5 ∷ 6 ∷ 7 ∷ 8 ∷ [])

copy_into_pool_picture_example :
    (c : Copied) × (copy_into_pool buffers pixels 5 1 2 [] started_data ≡ some c)
    × IsCopy buffers 5 (1 * 4) 2 pixels started_data c
copy_into_pool_picture_example =
    copy_into_pool_picture buffers pixels 5 1 2 [] started_data (omega arith)

abbrev second_slot : StreamFrame
second_slot = record {
  stream_id = 1;
  width = 1;
  height = 2;
  stride = 4;
  format = wire_dmabuf 875713112 0;
  damage = [];
  slot = some 1;
  payload = in_slot;
}

second_slot_valid : validate_frame second_slot 1 2 (dmabuf 875713112 0 bgrx) 2 ≡ ok (of_slot 1 [])
unfolding validate_frame validate_slot
second_slot_valid = refl

validate_frame-IsUsable_example :
    (second_slot.width ≡ 1)
    × (second_slot.height ≡ 2)
    × (1 * 4 ≤ second_slot.stride)
    × IsUsable second_slot (dmabuf 875713112 0 bgrx) 2 (of_slot 1 [])
validate_frame-IsUsable_example =
    validate_frame-IsUsable second_slot 1 2 (dmabuf 875713112 0 bgrx) 2 (of_slot 1 [])
      second_slot_valid

-- A consumer that takes shared memory only, and a compositor that then streams it.
abbrev plain_format : FixatedFormat
plain_format = record { raw_format = 8; width = 1; height = 2; modifier = none }

abbrev readback : StreamStarted
readback = record { stream_id = 2; width = 1; height = 2; format = bgra8; slots = none }

abbrev tiled : StreamData
tiled = record started_data {
  transport = record two_slots { announced = dmabuf 875713112 7 bgrx; offered_modifier = some 7 };
}

abbrev starts : Bool → Result CastError StreamStarted
starts true = err stop_failed
starts false = ok readback

abbrev switched : StreamData
switched = record started_data {
  transport = record two_slots {
    stream_id = 2;
    uses_dmabuf = false;
    announced = shm bgrx;
    offered_modifier = some 7;
    slot_files = [];
    slot_bindings = [];
  };
}
