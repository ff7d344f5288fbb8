-- ===== src/Cast/Transport.antt =====
-- cast/state.rs: the compositor-side transport, the negotiation, and the latest frame.
use xdg_desktop_portal_aegis.Prelude.{
  ℕ, ◌/◌, ◌%◌, Bool, true, false, ◌&&◌, Option, none, some, List, [], ◌∷◌, is_empty, length,
  replicate, unwrap_or, ◌==◌, if◌then◌else◌, Result, ok, ◌>>=◌,
}
use xdg_desktop_portal_aegis.Session.Registry.{CastSource}
use xdg_desktop_portal_aegis.Cast.Format.{
  StreamPixelFormat, AnnouncedFormat, shm, dmabuf, announced_format, drm_format_mod_linear,
  dmabuf_data_type_bit, CastError,
}
use xdg_desktop_portal_aegis.Cast.Frame.{FramePayload, of_slot}

pub data DeliveryMode : Type 0 where
  as_shm as_dmabuf : DeliveryMode

pub record Negotiation : Type 0 where
  pub mode : DeliveryMode
  pub consumer_data_types : Option ℕ

abbrev pub is_as_dmabuf : DeliveryMode → Bool
is_as_dmabuf as_dmabuf = true
is_as_dmabuf as_shm = false

-- `mask & DMABUF_DATA_TYPE_BIT != 0`, or no mask.
abbrev pub accepts_dmabuf : Option ℕ → Bool
accepts_dmabuf none = true
accepts_dmabuf (some mask) = (mask / dmabuf_data_type_bit) % 2 == 1

unfoldable pub forwarding_eligible : Negotiation → Bool
forwarding_eligible n = is_as_dmabuf n.mode && accepts_dmabuf n.consumer_data_types

pub record SlotBinding : Type 0 where
  pub pool : Option ℕ
  pub in_flight : Bool

pub record StreamSlot : Type 0 where
  pub file : ℕ
  pub stride : ℕ
  pub byte_len : ℕ

-- `StreamStarted`, the compositor's answer.
pub record StreamStarted : Type 0 where
  pub stream_id : ℕ
  pub width : ℕ
  pub height : ℕ
  pub format : StreamPixelFormat
  pub slots : Option (List StreamSlot)

pub record Transport : Type 0 where
  pub stream_id : ℕ
  pub target : CastSource
  pub cursor : ℕ
  pub uses_dmabuf : Bool
  pub width : ℕ
  pub height : ℕ
  pub announced : AnnouncedFormat
  pub offered_modifier : Option ℕ
  pub slot_files : List StreamSlot
  pub slot_bindings : List SlotBinding

abbrev pub unbound : SlotBinding
unbound = record { pool = none; in_flight = false }

abbrev pub slots_of : StreamStarted → List StreamSlot
slots_of started = unwrap_or [] started.slots

-- The modifier of the offer: only with a slot table.
abbrev pub offer_modifier : AnnouncedFormat → List StreamSlot → Option ℕ
offer_modifier (shm f) slots = none
offer_modifier (dmabuf drm modifier f) slots = if is_empty slots then none else some modifier

abbrev pub transport_of : StreamStarted → CastSource → ℕ → Bool → AnnouncedFormat → Transport
transport_of started target cursor uses announced = record {
  stream_id = started.stream_id;
  target = target;
  cursor = cursor;
  uses_dmabuf = uses;
  width = started.width;
  height = started.height;
  announced = announced;
  offered_modifier = offer_modifier announced (slots_of started);
  slot_files = slots_of started;
  slot_bindings = replicate (length (slots_of started)) unbound;
}

-- `Transport::new`.
unfoldable pub new_transport :
    StreamStarted → CastSource → ℕ → Bool → Result CastError (Transport × AnnouncedFormat)
new_transport started target cursor uses = do
  announced ← announced_format started.format
  ok (transport_of started target cursor uses announced, announced)

abbrev pub slot_count : Transport → ℕ
slot_count t = length t.slot_files

unfoldable pub mappable : AnnouncedFormat → Bool
mappable (shm f) = true
mappable (dmabuf drm modifier f) = modifier == drm_format_mod_linear

abbrev pub cpu_mappable : Transport → Bool
cpu_mappable t = mappable t.announced

abbrev pub restarted : StreamStarted → Bool → AnnouncedFormat → Transport → Transport
restarted started uses announced t = record {
  stream_id = started.stream_id;
  target = t.target;
  cursor = t.cursor;
  uses_dmabuf = uses;
  width = started.width;
  height = started.height;
  announced = announced;
  offered_modifier = t.offered_modifier;
  slot_files = slots_of started;
  slot_bindings = replicate (length (slots_of started)) unbound;
}

unfoldable pub swap_restarted :
    StreamStarted → Bool → Transport → Result CastError (Transport × AnnouncedFormat)
swap_restarted started uses t = do
  announced ← announced_format started.format
  ok (restarted started uses announced t, announced)

-- What the listener shares: `latest`, `pending`, the transport and the negotiation, the stash of
-- unbound buffers, the counters, and the calls that went out: the slots that were released, each
-- with its stream, and the buffers that were queued to PipeWire.
pub record StreamData : Type 0 where
  pub latest : Option FramePayload
  pub pending : Bool
  pub transport : Transport
  pub negotiation : Negotiation
  pub pool : List ℕ
  pub sequence : ℕ
  pub dropped_frames : ℕ
  pub warned_unmappable : Bool
  pub releases : List (ℕ × ℕ)
  pub queued : List ℕ

-- `release_slot`: a failed release is only logged.
unfoldable pub release_slot : ℕ → StreamData → StreamData
release_slot slot d =
    if is_empty d.transport.slot_files
    then d
    else record d { releases = (d.transport.stream_id, slot) ∷ d.releases }

abbrev pub release_superseded : Bool → Option FramePayload → StreamData → StreamData
release_superseded true (some (of_slot slot damage)) d = release_slot slot d
release_superseded _ _ d = d

abbrev pub stored : FramePayload → StreamData → StreamData
stored payload d = record d { latest = some payload; pending = true }

unfoldable pub replace_latest : FramePayload → StreamData → StreamData
replace_latest payload d = stored payload (release_superseded d.pending d.latest d)
