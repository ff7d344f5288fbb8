-- ===== src/Cast/Frame.antt =====
-- cast/frame.rs: what a received frame must look like before its pixels are touched.
use xdg_desktop_portal_aegis.Prelude.{
  ℕ, ◌*◌, ◌^◌, Bool, true, false, not, ◌&&◌, ◌||◌, Option, none, some, List, ltb, leb, ◌==◌,
  if◌then◌else◌, Result, ok, err, refuse_if, ◌>>◌,
}
use xdg_desktop_portal_aegis.Cast.Format.{
  StreamPixelFormat, bgra8, rgba8, wire_dmabuf, AnnouncedFormat, shm, dmabuf, drm_format_mod_linear,
  CastError, wrong_geometry, invalid_stride, no_slot_table, slot_outside, slot_with_descriptor,
  not_tightly_packed, non_linear, format_mismatch, invalid_geometry, frame_too_large,
}
use xdg_desktop_portal_aegis.Cast.Meta.{Rect}

abbrev pub max_frame_bytes : ℕ
max_frame_bytes = 268435456

-- What came with the frame's header: a descriptor, or nothing for a slot frame.
pub data StreamPayload : Type 0 where
  memfd dmabuf_file : ℕ → StreamPayload
  in_slot : StreamPayload

pub record StreamFrame : Type 0 where
  pub stream_id : ℕ
  pub width : ℕ
  pub height : ℕ
  pub stride : ℕ
  pub format : StreamPixelFormat
  pub damage : List Rect
  pub slot : Option ℕ
  pub payload : StreamPayload

-- `descriptor file stride damage` and `of_slot slot damage`.
pub data FramePayload : Type 0 where
  descriptor : ℕ → ℕ → List Rect → FramePayload
  of_slot : ℕ → List Rect → FramePayload

abbrev pub is_in_slot : StreamPayload → Bool
is_in_slot in_slot = true
is_in_slot _ = false

-- The branch of a frame that names a slot.
unfoldable pub validate_slot : StreamFrame → ℕ → ℕ → Result CastError FramePayload
validate_slot frame slot slot_count = do
  refuse_if (slot_count == 0) no_slot_table
  refuse_if (leb slot_count slot) slot_outside
  refuse_if (not (is_in_slot frame.payload)) slot_with_descriptor
  ok (of_slot slot frame.damage)

unfoldable pub validate_shm : StreamFrame → ℕ → ℕ → Result CastError FramePayload
validate_shm frame file row_bytes = do
  refuse_if (not (frame.stride == row_bytes)) not_tightly_packed
  ok (descriptor file frame.stride frame.damage)

unfoldable pub validate_dmabuf : StreamFrame → ℕ → ℕ → Result CastError FramePayload
validate_dmabuf frame file modifier = do
  refuse_if (not (modifier == drm_format_mod_linear)) non_linear
  ok (descriptor file frame.stride frame.damage)

-- The match on the announced format, the frame's and its payload.
unfoldable pub validate_descriptor :
    StreamFrame
    → ℕ
    → AnnouncedFormat
    → StreamPixelFormat
    → StreamPayload
    → Result CastError FramePayload
validate_descriptor frame row_bytes (shm f) bgra8 (memfd file) = validate_shm frame file row_bytes
validate_descriptor frame row_bytes (shm f) rgba8 (memfd file) = validate_shm frame file row_bytes
validate_descriptor frame row_bytes (dmabuf drm modifier f) (wire_dmabuf frame_drm frame_modifier)
      (dmabuf_file file) =
    if frame_drm == drm && frame_modifier == modifier
    then validate_dmabuf frame file modifier
    else err format_mismatch
validate_descriptor frame row_bytes announced wire payload = err format_mismatch

abbrev pub validate_payload :
    StreamFrame → ℕ → AnnouncedFormat → ℕ → Option ℕ → Result CastError FramePayload
validate_payload frame row_bytes announced slot_count (some slot) =
    validate_slot frame slot slot_count
validate_payload frame row_bytes announced slot_count none =
    validate_descriptor frame row_bytes announced frame.format frame.payload

abbrev pub i32_max : ℕ
i32_max = 2147483647

unfoldable pub validate_frame :
    StreamFrame → ℕ → ℕ → AnnouncedFormat → ℕ → Result CastError FramePayload
validate_frame frame width height announced slot_count = do
  refuse_if (not (frame.width == width) || not (frame.height == height)) wrong_geometry
  refuse_if (ltb frame.stride (width * 4) || ltb i32_max frame.stride) invalid_stride
  validate_payload frame (width * 4) announced slot_count frame.slot

-- `usize::checked_mul`, on 64 bits.
abbrev pub checked_mul : ℕ → ℕ → Option ℕ
checked_mul a b = if ltb (a * b) (2 ^ 64) then some (a * b) else none

abbrev pub times_four : Option ℕ → Option ℕ
times_four none = none
times_four (some pixels) = checked_mul pixels 4

abbrev pub within_limit : ℕ → ℕ → Option ℕ → Result CastError ℕ
within_limit width height none = err invalid_geometry
within_limit width height (some bytes) =
    if width == 0 || height == 0 || ltb max_frame_bytes bytes then err frame_too_large else ok bytes

unfoldable pub frame_len : ℕ → ℕ → Result CastError ℕ
frame_len width height = within_limit width height (times_four (checked_mul width height))
