-- ===== src/Apps/Desktop.antt =====
-- apps/desktop.rs: ids and content types, and the reader of list files. A file is its bytes, or
-- `none` where it cannot be opened or read.
use xdg_desktop_portal_aegis.Prelude.{
  ℕ, ◌+◌, ltb, take, length, Bool, false, not, ◌&&◌, ◌||◌, Option, none, some, List, [], ◌∷◌, map,
  Text, codes, contains_char, utf8_len, trim, trim_end, strip_prefix, strip_suffix_char, split_once,
  split, leb, ◌==◌, if◌then◌else◌, is_empty, unwrap_or, retain, Map, lookup, insert,
}
use xdg_desktop_portal_aegis.Apps.Uri.{Bytes}

abbrev pub max_id_bytes : ℕ
max_id_bytes = 256

abbrev pub backslash : ℕ
backslash = 92

unfoldable pub valid_desktop_id : Text → Bool
valid_desktop_id id =
    not (is_empty id)
    && leb (utf8_len id) max_id_bytes
    && not (contains_char b'/' id)
    && not (contains_char backslash id)
    && not (contains_char 0 id)
    && not (contains_char 10 id)

abbrev pub two_parts : Text → List Text → Bool
two_parts t (kind ∷ subtype ∷ []) =
    leb (utf8_len t) max_id_bytes
    && not (contains_char 0 t)
    && not (contains_char 10 t)
    && not (is_empty (trim kind))
    && not (is_empty (trim subtype))
two_parts t _ = false

unfoldable pub valid_content_type : Text → Bool
valid_content_type t = two_parts t (split b'/' t)

-- `str::split_inclusive` at a line feed: each piece has its line feed, but perhaps the last.
unfoldable pub split_inclusive : Text → List Text
split_inclusive [] = []
split_inclusive (c ∷ []) = (c ∷ []) ∷ []
split_inclusive (c ∷ d ∷ s) =
    let more = split_inclusive (d ∷ s) in
    if c == 10 then (10 ∷ []) ∷ more else elim more [ [] ↦ (c ∷ []) ∷ [] | l ∷ ls ↦ (c ∷ l) ∷ ls ]

-- `str::lines`.
unfoldable pub lines : Text → List Text
unfolding split_inclusive
lines s =
    map
      (λ (l : Text). elim (strip_suffix_char 10 l) [
        | none ↦ l
        | some b ↦ unwrap_or b (strip_suffix_char 13 b)
      ])
      (split_inclusive s)

-- The name in a group's header.
unfoldable pub header_of : Text → Option Text
header_of line = elim (strip_prefix (codes "[") line) [
  | none ↦ none
  | some inner ↦ elim (strip_suffix_char b']' inner) [ none ↦ none | some name ↦ some (trim name) ]
]

-- The pieces of a list between its semicolons, trimmed, less the empty ones.
unfoldable pub list_items : Text → List Text
list_items value = retain (λ (t : Text). not (is_empty t)) (map trim (split b';' value))

abbrev pub Groups : Type 0
Groups = Map (Map (List Text))

abbrev pub starts_with_hash : Text → Bool
starts_with_hash [] = false
starts_with_hash (c ∷ s) = c == b'#'

-- A key and its list, of a line within a group that is no comment.
unfoldable pub keyed_list : Text → Option (Text × List Text)
keyed_list line = elim (split_once b'=' line) [
  | none ↦ none
  | some (key, value) ↦
      if is_empty (trim key) || contains_char b'[' (trim key)
      then none
      else some (trim key, list_items value)
]

-- The variables of the loop of `parse_grouped_lists`.
pub record Reading : Type 0 where
  pub group : Text
  pub groups : Groups

abbrev pub put_list : Reading → Option (Text × List Text) → Reading
put_list r none = r
put_list r (some (key, ids)) = record r {
  groups = insert r.group (insert key ids (unwrap_or [] (lookup r.group r.groups))) r.groups;
}

abbrev pub read_entry : Reading → Text → Reading
read_entry r line =
    if is_empty r.group || starts_with_hash line then r else put_list r (keyed_list line)

abbrev pub read_trimmed : Reading → Text → Option Text → Reading
read_trimmed r line (some name) = record r { group = name }
read_trimmed r line none = read_entry r line

-- The body of the loop.
unfoldable pub read_line : Reading → Text → Reading
read_line r l = read_trimmed r (trim_end l) (header_of (trim_end l))

unfoldable pub read_lines : Reading → List Text → Reading
read_lines r [] = r
read_lines r (l ∷ ls) = read_lines (read_line r l) ls

abbrev pub nothing_read : Reading
nothing_read = record { group = []; groups = [] }

abbrev pub groups_of : Option Text → Groups
groups_of none = []
groups_of (some text) = (read_lines nothing_read (lines text)).groups

abbrev pub max_entry_bytes : ℕ
max_entry_bytes = 262144

-- `from_utf8_lossy` is `String::from_utf8_lossy`.
module _ (from_utf8_lossy : Bytes → Text) where
  -- A file's text, if the file is read and has at most `cap` bytes: one more than these is taken.
  unfoldable pub read_capped : ℕ → Option Bytes → Option Text
  read_capped cap none = none
  read_capped cap (some file) =
      let bytes = take (cap + 1) file in
      if ltb cap (length bytes) then none else some (from_utf8_lossy bytes)

  unfoldable pub parse_grouped_lists : Option Bytes → Groups
  parse_grouped_lists file = groups_of (read_capped max_entry_bytes file)
