-- ===== src/Screencast/Options.antt =====
-- screencast.rs: `parse_select_options`, `validate_select_shape` and `validate_select`.
use xdg_desktop_portal_aegis.Prelude.{
  ℕ, ◌/◌, ◌%◌, ◌^◌, ◌≤◌, ◌≡◌, ◌↔◌, ◌⊎◌, Bool, not, ◌&&◌, ◌||◌, Option, none, some, Text, codes, ltb,
  leb, ◌==◌, if◌then◌else◌, is_empty, unwrap_or, Map, lookup, Result, ok, refuse_if, ◌>>◌, arith,
}

abbrev pub source_type_monitor : ℕ
source_type_monitor = 1

abbrev pub source_type_window : ℕ
source_type_window = 2

abbrev pub cursor_mode_hidden : ℕ
cursor_mode_hidden = 1

abbrev pub cursor_mode_embedded : ℕ
cursor_mode_embedded = 2

abbrev pub per_source_protocol : ℕ
per_source_protocol = 29

-- atrium-portal-ipc/src/schema.rs.
abbrev pub min_protocol_version : ℕ
min_protocol_version = 24

-- A D-Bus variant, as far as options are read from it.
pub data Variant : Type 0 where
  u32 : ℕ → Variant
  str : Text → Variant
  other : Variant

pub record SelectOptions : Type 0 where
  pub source_types : ℕ
  pub cursor_mode : ℕ
  pub persist_mode : ℕ
  pub restore_token : Option Text

-- `u32::try_from(value).ok()` and `String::try_from(value).ok()`.
abbrev pub as_u32 : Option Variant → Option ℕ
as_u32 (some (u32 n)) = some n
as_u32 _ = none

abbrev pub as_text : Option Variant → Option Text
as_text (some (str t)) = some t
as_text _ = none

abbrev pub non_empty : Option Text → Option Text
non_empty none = none
non_empty (some t) = if is_empty t then none else some t

unfoldable pub parse_select_options : Map Variant → SelectOptions
parse_select_options options = record {
  source_types = unwrap_or source_type_monitor (as_u32 (lookup (codes "types") options));
  cursor_mode = unwrap_or 1 (as_u32 (lookup (codes "cursor_mode") options));
  persist_mode = unwrap_or 0 (as_u32 (lookup (codes "persist_mode") options));
  restore_token = non_empty (as_text (lookup (codes "restore_token") options));
}

pub data SelectError : Type 0 where
  undefined_types undefined_persist_mode unservable_types unsupported_cursor : SelectError

-- Bit `k` of a mask.
abbrev pub has_bit : ℕ → ℕ → Bool
has_bit k x = (x / 2 ^ k) % 2 == 1

-- A mask that names a bit beyond monitor (bit 0) and window (bit 1) is 4 or more.
unfoldable pub validate_select_shape : SelectOptions → Result SelectError (Unit {0})
validate_select_shape o = do
  refuse_if (leb 4 o.source_types) undefined_types
  refuse_if (ltb 2 o.persist_mode) undefined_persist_mode

abbrev pub serves : ℕ → SelectOptions → Bool
serves protocol o =
    has_bit 0 o.source_types || (leb per_source_protocol protocol && has_bit 1 o.source_types)

abbrev pub serves_cursor : ℕ → SelectOptions → Bool
serves_cursor protocol o =
    o.cursor_mode == cursor_mode_hidden
    || (o.cursor_mode == cursor_mode_embedded && leb per_source_protocol protocol)

unfoldable pub validate_select : SelectOptions → ℕ → Result SelectError (Unit {0})
unfolding validate_select_shape
validate_select o protocol = do
  validate_select_shape o
  refuse_if (not (serves protocol o)) unservable_types
  refuse_if (not (serves_cursor protocol o)) unsupported_cursor

-- The options that a compositor of this protocol can serve.
pub record IsServable (protocol : ℕ) (o : SelectOptions) : Type 0 where
  pub types :
      (o.source_types ≡ 1)
      ⊎ ((o.source_types ≡ 3) ⊎ ((o.source_types ≡ 2) × (per_source_protocol ≤ protocol)))
  pub persist : o.persist_mode ≤ 2
  pub cursor : (o.cursor_mode ≡ 1) ⊎ ((o.cursor_mode ≡ 2) × (per_source_protocol ≤ protocol))

-- `validate_select` accepts exactly these options: sources monitor, or monitor and window, or,
-- from protocol 29 on, window alone; a persist mode of 0, 1 or 2; and a hidden cursor or, from
-- protocol 29 on, an embedded one.
pub validate_select_iff :
    (o : SelectOptions) (protocol : ℕ)
    → (validate_select o protocol ≡ ok tt) ↔ IsServable protocol o
unfolding validate_select
validate_select_iff o protocol = (λ h. ground arith, λ s. ground arith)
