-- ===== src/Cast/Format.antt =====
-- cast/format.rs: the mapping of wire formats, and the parameters that PipeWire fixates. The pods
-- are taken as PipeWire's deserializer returns them.
use xdg_desktop_portal_aegis.Prelude.{
  ℕ, ◌+◌, ◌*◌, ◌^◌, ◌%◌, Option, none, some, List, [], ◌∷◌, ◌==◌, if◌then◌else◌, Result, ok, err,
}

-- `StreamPixelFormat` of the compositor's protocol.
pub data StreamPixelFormat : Type 0 where
  bgra8 rgba8 : StreamPixelFormat
  wire_dmabuf : ℕ → ℕ → StreamPixelFormat

-- The raw formats that the cast offers.
pub data VideoFormat : Type 0 where
  bgrx bgra rgbx rgba xbgr abgr xrgb argb : VideoFormat

-- `dmabuf drm_format modifier spa_format`.
pub data AnnouncedFormat : Type 0 where
  shm : VideoFormat → AnnouncedFormat
  dmabuf : ℕ → ℕ → VideoFormat → AnnouncedFormat

abbrev pub drm_format_mod_linear : ℕ
drm_format_mod_linear = 0

abbrev pub dmabuf_data_type_bit : ℕ
dmabuf_data_type_bit = 8

unfoldable pub spa_format : AnnouncedFormat → VideoFormat
spa_format (shm f) = f
spa_format (dmabuf drm modifier f) = f

-- `(a as u32) | ((b as u32) << 8) | …`, on bytes.
unfoldable pub fourcc : ℕ → ℕ → ℕ → ℕ → ℕ
fourcc a b c d = a + b * 256 + c * 65536 + d * 16777216

unfoldable pub spa_format_for_drm : ℕ → Option VideoFormat
spa_format_for_drm f =
    if f == fourcc b'X' b'R' b'2' b'4'
    then some bgrx
    else if f == fourcc b'A' b'R' b'2' b'4'
    then some bgra
    else if f == fourcc b'X' b'B' b'2' b'4'
    then some rgbx
    else if f == fourcc b'A' b'B' b'2' b'4'
    then some rgba
    else if f == fourcc b'R' b'X' b'2' b'4'
    then some xbgr
    else if f == fourcc b'R' b'A' b'2' b'4'
    then some abgr
    else if f == fourcc b'B' b'X' b'2' b'4'
    then some xrgb
    else if f == fourcc b'B' b'A' b'2' b'4'
    then some argb
    else none

pub data CastError : Type 0 where
  unsupported_format : ℕ → CastError
  wrong_geometry invalid_stride no_slot_table slot_outside slot_with_descriptor : CastError
  not_tightly_packed non_linear format_mismatch invalid_geometry frame_too_large : CastError
  stop_failed start_failed superseded restart_geometry restart_format : CastError

abbrev pub announce_dmabuf : ℕ → ℕ → Option VideoFormat → Result CastError AnnouncedFormat
announce_dmabuf drm modifier none = err (unsupported_format drm)
announce_dmabuf drm modifier (some f) = ok (dmabuf drm modifier f)

unfoldable pub announced_format : StreamPixelFormat → Result CastError AnnouncedFormat
announced_format bgra8 = ok (shm bgrx)
announced_format rgba8 = ok (shm rgbx)
announced_format (wire_dmabuf drm modifier) = announce_dmabuf drm modifier (spa_format_for_drm drm)

pub record FixatedFormat : Type 0 where
  pub raw_format : ℕ
  pub width : ℕ
  pub height : ℕ
  pub modifier : Option ℕ

-- A SPA choice, as far as its default goes: of `ChoiceEnum::None`, or of the other kinds.
pub data Choice (A : Type 0) : Type 0 where
  fixed : A → Choice A
  defaulting : A → Choice A

abbrev pub choice_default : {A : Type 0} → Choice A → A
choice_default (fixed a) = a
choice_default (defaulting a) = a

-- The pod values that are read. A `Long` or an `Int` is its two's complement.
pub data PodValue : Type 0 where
  id int long : ℕ → PodValue
  id_choice int_choice long_choice : Choice ℕ → PodValue
  rectangle : ℕ → ℕ → PodValue
  rectangle_choice : Choice (ℕ × ℕ) → PodValue
  other_value : PodValue

abbrev pub pod_value_id : PodValue → Option ℕ
pod_value_id (id i) = some i
pod_value_id (id_choice c) = some (choice_default c)
pod_value_id _ = none

abbrev pub pod_value_rectangle : PodValue → Option (ℕ × ℕ)
pod_value_rectangle (rectangle w h) = some (w, h)
pod_value_rectangle (rectangle_choice c) = some (choice_default c)
pod_value_rectangle _ = none

abbrev pub pod_value_long : PodValue → Option ℕ
pod_value_long (long l) = some l
pod_value_long (long_choice c) = some (choice_default c)
pod_value_long _ = none

-- The keys of the properties that are read.
pub data FormatKey : Type 0 where
  video_format video_size video_modifier other_key : FormatKey

pub record FormatParts : Type 0 where
  pub format : Option ℕ
  pub size : Option (ℕ × ℕ)
  pub modifier : Option ℕ

-- One turn of the loop over the properties.
abbrev pub read_property : FormatKey → PodValue → FormatParts → FormatParts
read_property video_format v p = record p { format = pod_value_id v }
read_property video_size v p = record p { size = pod_value_rectangle v }
read_property video_modifier v p = record p { modifier = pod_value_long v }
read_property other_key v p = p

abbrev pub read_properties : List (FormatKey × PodValue) → FormatParts → FormatParts
read_properties [] p = p
read_properties ((k, v) ∷ rest) p = read_properties rest (read_property k v p)

abbrev pub fixated : Option ℕ → Option (ℕ × ℕ) → Option ℕ → Option FixatedFormat
fixated none size modifier = none
fixated (some f) none modifier = none
fixated (some f) (some (w, h)) modifier =
    some (record { raw_format = f; width = w; height = h; modifier = modifier })

-- `parse_format_param`, on the properties of an object.
unfoldable pub parse_format_param : List (FormatKey × PodValue) → Option FixatedFormat
parse_format_param properties =
    let p = read_properties properties (record { format = none; size = none; modifier = none }) in
    fixated p.format p.size p.modifier

abbrev pub data_types : PodValue → Option ℕ
data_types (int mask) = some (mask % 2 ^ 32)
data_types (int_choice c) = some (choice_default c % 2 ^ 32)
data_types _ = none

-- `parse_buffers_data_types`, on the keys and values of an object's properties.
unfoldable pub parse_buffers_data_types : List (ℕ × PodValue) → Option ℕ
parse_buffers_data_types [] = none
parse_buffers_data_types ((key, v) ∷ rest) =
    let later = parse_buffers_data_types rest in if key == 6 then data_types v else later
