-- ===== src/Apps/MimeApps.antt =====
-- apps/mimeapps.rs: `update_default_applications`.
use xdg_desktop_portal_aegis.Prelude.{
  Bool, true, false, not, ◌&&◌, ◌||◌, Option, none, some, List, [], ◌∷◌, ◌++◌, Text, codes, text_eq,
  trim, trim_end, strip_suffix_char, split_once, split, join, map, retain, if◌then◌else◌, is_empty,
  unwrap_or,
}
use xdg_desktop_portal_aegis.Apps.Desktop.{split_inclusive, header_of}

pub record Edit : Type 0 where
  pub in_defaults : Bool
  pub seen_group : Bool
  pub wrote_key : Bool

abbrev pub nothing_edited : Edit
nothing_edited = record { in_defaults = false; seen_group = false; wrote_key = false }

abbrev pub concat : List Text → Text
concat [] = []
concat (t ∷ ts) = t ++ concat ts

abbrev pub ends_with_newline : Text → Bool
ends_with_newline t = elim (strip_suffix_char 10 t) [ none ↦ false | some b ↦ true ]

abbrev pub body_of : Text → Text
body_of line = unwrap_or line (strip_suffix_char 10 line)

-- `last.push('\n')` where the last line has none.
unfoldable pub end_last : List Text → List Text
end_last [] = []
end_last (t ∷ []) = (if ends_with_newline t then t else t ++ 10 ∷ []) ∷ []
end_last (t ∷ u ∷ ts) = t ∷ end_last (u ∷ ts)

module _ (content_type desktop_id : Text) where
  abbrev pub key_line : Text → Text
  key_line ids = content_type ++ b'=' ∷ (ids ++ codes ";\n")

  -- The value that keeps the other ids as fallbacks.
  unfoldable pub new_value : Text → Text
  new_value existing = join (codes ";") (
      desktop_id
      ∷ retain (λ (id : Text). not (is_empty id) && not (text_eq id desktop_id))
          (map trim (split b';' existing)))

  -- The value of a line that sets the key.
  unfoldable pub target_value : Text → Option Text
  target_value body = elim (split_once b'=' body) [
    | none ↦ none
    | some (key, value) ↦ if text_eq (trim key) content_type then some value else none
  ]

  -- One round of the loop: the lines pushed, and the variables after it.
  unfoldable pub edit_line : Edit → Text → List Text × Edit
  unfolding new_value target_value
  edit_line e line = elim (header_of (trim_end (body_of line))) [
    | some header ↦
        let here = text_eq header (codes "Default Applications") in
        let leaving = e.in_defaults && not e.wrote_key in
        (
          (if leaving then key_line desktop_id ∷ line ∷ [] else line ∷ []),
          record {
            in_defaults = here;
            seen_group = e.seen_group || here;
            wrote_key = e.wrote_key || leaving;
          },
        )
    | none ↦
        if e.in_defaults
        then elim (target_value (body_of line)) [
          | none ↦ (line ∷ [], e)
          | some existing ↦ (key_line (new_value existing) ∷ [], record e { wrote_key = true })
        ]
        else (line ∷ [], e)
  ]

  unfoldable pub edit_lines : Edit → List Text → List Text × Edit
  unfolding edit_line
  edit_lines e [] = ([], e)
  edit_lines e (l ∷ ls) =
      let first = edit_line e l in let rest = edit_lines first.1 ls in (first.0 ++ rest.0, rest.1)

  -- What is pushed behind the loop.
  unfoldable pub finish_lines : Edit → List Text → List Text
  unfolding end_last
  finish_lines e out =
      let appended =
        if e.in_defaults && not e.wrote_key then out ++ key_line desktop_id ∷ [] else out in
      if e.seen_group
      then appended
      else end_last appended
        ++ (if is_empty appended then [] else codes "\n" ∷ [])
        ++ codes "[Default Applications]\n" ∷ key_line desktop_id ∷ []

  unfoldable pub update_default_applications : Text → Text
  unfolding edit_lines edit_line finish_lines
  update_default_applications text =
      let edited = edit_lines nothing_edited (split_inclusive text) in
      let result = concat (finish_lines edited.1 edited.0) in
      if not (is_empty result) && not (ends_with_newline result) then result ++ 10 ∷ [] else result
