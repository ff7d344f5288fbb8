-- ===== src/Apps/MimeEdit.antt =====
-- apps/mimeapps.rs: the whole of an edit, read line by line.
use xdg_desktop_portal_aegis.Prelude.{
  Bool, true, false, not, ◌&&◌, ◌||◌, Option, none, some, List, [], ◌∷◌, ◌++◌, ◌≡◌, refl, ◌⊎◌, inl,
  inr, sym, ◌∙◌, map, Text, codes, text_eq, trim_start, is_whitespace, trim_end, strip_prefix,
  strip_suffix_char, if◌then◌else◌, is_empty, append_assoc, arith, Bool-cases, Option-cases,
}
use xdg_desktop_portal_aegis.Apps.Desktop.{Reading, read_line, read_lines, nothing_read, header_of}
use xdg_desktop_portal_aegis.Apps.Lines.{IsKey}
use xdg_desktop_portal_aegis.Apps.MimeApps.{
  Edit, nothing_edited, body_of, end_last, key_line, new_value, target_value, edit_line, edit_lines,
  finish_lines,
}
use xdg_desktop_portal_aegis.Apps.MimeAppsLaws.{
  defaults, IsListed, IsDefault, read-key_line, Follows, Stays, in_defaults-group, read-header,
  Stays-leaving, Stays-header, Stays-target, Stays-other,
}

module _ (ct id : Text) where
  abbrev pub entered : Text → Bool → Edit → Edit
  entered name wrote e = record {
    in_defaults = text_eq name defaults;
    seen_group = e.seen_group || text_eq name defaults;
    wrote_key = wrote;
  }

  pub edit_line-header :
      (line name : Text) (e : Edit)
      → header_of (trim_end (body_of line)) ≡ some name
      → edit_line ct id e line ≡ (
          if e.in_defaults && not e.wrote_key
          then (key_line ct id id ∷ line ∷ [], entered name true e)
          else (line ∷ [], entered name e.wrote_key e))
  unfolding edit_line
  edit_line-header line name e h = elim (Bool-cases (e.in_defaults && not e.wrote_key)) [
    | inl q ↦ ground (arith, h, q)
    | inr q ↦ ground (arith, h, q)
  ]

  pub edit_line-target :
      (line old : Text) (e : Edit)
      → header_of (trim_end (body_of line)) ≡ none
      → e.in_defaults ≡ true
      → target_value ct id (body_of line) ≡ some old
      → edit_line ct id e line
        ≡ (key_line ct id (new_value ct id old) ∷ [], record e { wrote_key = true })
  unfolding edit_line
  edit_line-target line old e h d t = ground (arith, h, d, t)

  pub edit_line-other :
      (line : Text) (e : Edit)
      → header_of (trim_end (body_of line)) ≡ none
      → (target_value ct id (body_of line) ≡ none) ⊎ (e.in_defaults ≡ false)
      → edit_line ct id e line ≡ (line ∷ [], e)
  unfolding edit_line
  edit_line-other line e h (inl t) = ground (arith, h, t)
  edit_line-other line e h (inr d) = ground (arith, h, d)

  Stays-default :
      (line : Text) (e : Edit) (r : Reading) (target : Option Text)
      → IsKey ct
      → IsListed id
      → header_of (trim_end (body_of line)) ≡ none
      → e.in_defaults ≡ true
      → target_value ct id (body_of line) ≡ target
      → Follows ct id e r
      → Stays ct id r (edit_line ct id e line)
  Stays-default line e r none k l h d t w =
      rw (edit_line-other line e h (inl t)) (Stays-other ct id line e r h (inl t) w)
  Stays-default line e r (some old) k l h d t w =
      rw (edit_line-target line old e h d t) (Stays-target ct id line old e r k l d w)

  Stays-entry :
      (line : Text) (e : Edit) (r : Reading)
      → IsKey ct
      → IsListed id
      → header_of (trim_end (body_of line)) ≡ none
      → Follows ct id e r
      → Stays ct id r (edit_line ct id e line)
  Stays-entry line e r k l h w = elim (Bool-cases e.in_defaults) [
    | inl d ↦ Stays-default line e r (target_value ct id (body_of line)) k l h d refl w
    | inr d ↦
        rw (edit_line-other line e h (inr d))
          (Stays-other ct id line e r h (inr (sym w.here ∙ d)) w)
  ]

  Stays-entered :
      (line name : Text) (e : Edit) (r : Reading)
      → IsKey ct
      → IsListed id
      → header_of (trim_end (body_of line)) ≡ some name
      → Follows ct id e r
      → Stays ct id r (edit_line ct id e line)
  Stays-entered line name e r k l h w =
      rw (edit_line-header line name e h) (elim (Bool-cases (e.in_defaults && not e.wrote_key)) [
        | inl q ↦ rw q (Stays-leaving ct id line name e r k l h (ground (arith, q)) w)
        | inr q ↦ rw q (Stays-header ct id line name e r h q w)
      ])

  edit_line-Stays :
      (line : Text) (e : Edit) (r : Reading)
      → IsKey ct
      → IsListed id
      → Follows ct id e r
      → Stays ct id r (edit_line ct id e line)
  edit_line-Stays line e r k l w = elim (Option-cases (header_of (trim_end (body_of line)))) [
    | inl h ↦ Stays-entry line e r k l h w
    | inr (name, h) ↦ Stays-entered line name e r k l h w
  ]

  read_lines-append :
      (xs ys : List Text) (r : Reading)
      → read_lines r (map body_of (xs ++ ys))
        ≡ read_lines (read_lines r (map body_of xs)) (map body_of ys)
  unfolding read_lines
  read_lines-append [] ys r = refl
  read_lines-append (x ∷ xs) ys r = read_lines-append xs ys (read_line r (body_of x))

  edit_lines-Stays :
      (ls : List Text) (e : Edit) (r : Reading)
      → IsKey ct
      → IsListed id
      → Follows ct id e r
      → Stays ct id r (edit_lines ct id e ls)
  unfolding edit_lines read_lines
  edit_lines-Stays [] e r k l w = w
  edit_lines-Stays (x ∷ ls) e r k l w =
      let first = edit_line ct id e x in
      rw (read_lines-append first.0 (edit_lines ct id first.1 ls).0 r) (
        edit_lines-Stays ls first.1 (read_lines r (map body_of first.0)) k l
          (edit_line-Stays x e r k l w))

  defaults_header :
      header_of (trim_end (body_of (codes "[Default Applications]\n"))) ≡ some defaults
  unfolding header_of trim_end strip_prefix strip_suffix_char is_whitespace trim_start
  defaults_header = refl

  appended_group :
      (ls : List Text) (r : Reading)
      → IsKey ct
      → IsListed id
      → IsDefault ct id
          (read_lines r
            (map body_of (ls ++ codes "[Default Applications]\n" ∷ key_line ct id id ∷ []))).groups
  unfolding read_lines
  appended_group ls r k l =
      let q : Reading = read_lines r (map body_of ls) in
      rw (read_lines-append ls (codes "[Default Applications]\n" ∷ key_line ct id id ∷ []) r) (
        rw
          (read-header ct id (body_of (codes "[Default Applications]\n")) defaults q
            defaults_header)
          ((read-key_line ct id id [] (record q { group = defaults }) k l refl refl).1))

  appended_key :
      (ls : List Text) (e : Edit) (r : Reading)
      → IsKey ct
      → IsListed id
      → Stays ct id r (ls, e)
      → e.in_defaults ≡ true
      → IsDefault ct id (read_lines r (map body_of (ls ++ key_line ct id id ∷ []))).groups
  unfolding read_lines
  appended_key ls e r k l w d =
      let q : Reading = read_lines r (map body_of ls) in
      rw (read_lines-append ls (key_line ct id id ∷ []) r)
        ((read-key_line ct id id [] q k l (in_defaults-group ct id e q w d) refl).1)

  pub finish_lines_appended :
      (out : List Text) (e : Edit)
      → e.seen_group ≡ true
      → (e.in_defaults && not e.wrote_key) ≡ true
      → finish_lines ct id e out ≡ out ++ key_line ct id id ∷ []
  unfolding finish_lines
  finish_lines_appended out e s q = ground (arith, s, q)

  pub finish_lines_complete :
      (out : List Text) (e : Edit)
      → e.seen_group ≡ true
      → (e.in_defaults && not e.wrote_key) ≡ false
      → finish_lines ct id e out ≡ out
  unfolding finish_lines
  finish_lines_complete out e s q = ground (arith, s, q)

  pub finish_lines_unseen :
      (out : List Text) (e : Edit)
      → e.seen_group ≡ false
      → (before : List Text) × (finish_lines ct id e out
          ≡ before ++ codes "[Default Applications]\n" ∷ key_line ct id id ∷ [])
  unfolding finish_lines
  finish_lines_unseen out e s =
      let a : List Text =
        if e.in_defaults && not e.wrote_key then out ++ key_line ct id id ∷ [] else out in
      let blank : List Text = if is_empty a then [] else codes "\n" ∷ [] in
      let group : List Text = codes "[Default Applications]\n" ∷ key_line ct id id ∷ [] in
      (end_last a ++ blank, ground (arith, s, append_assoc (end_last a) blank group))

  finished :
      (out : List Text) (e : Edit)
      → Stays ct id nothing_read (out, e)
      → IsKey ct
      → IsListed id
      → IsDefault ct id (read_lines nothing_read (map body_of (finish_lines ct id e out))).groups
  finished out e w k l = elim (Bool-cases e.seen_group) [
    | inr s ↦
        let (before, eq) = finish_lines_unseen out e s in
        rw eq (appended_group before nothing_read k l)
    | inl s ↦ elim (Bool-cases (e.in_defaults && not e.wrote_key)) [
      | inl q ↦
          rw (finish_lines_appended out e s q)
            (appended_key out e nothing_read k l w (ground (arith, q)))
      | inr q ↦ rw (finish_lines_complete out e s q) (w.found (ground (arith, q, w.seen, s)))
    ]
  ]

  -- Read line by line, what the edit puts out has the id in front of the list of the content type in
  -- the default applications, whatever the lines that were edited.
  pub edit_lines-IsDefault :
      (ls : List Text)
      → IsKey ct
      → IsListed id
      → let edited = edit_lines ct id nothing_edited ls in
        IsDefault ct id
          (read_lines nothing_read (map body_of (finish_lines ct id edited.1 edited.0))).groups
  unfolding text_eq
  edit_lines-IsDefault ls k l =
      let edited : List Text × Edit = edit_lines ct id nothing_edited ls in
      let start : Follows ct id nothing_edited nothing_read = record {
        here = refl;
        found = λ q. absurd (ground (arith, q));
        seen = λ q. absurd (ground (arith, q));
      } in
      let w : Stays ct id nothing_read edited =
        edit_lines-Stays ls nothing_edited nothing_read k l start in
      finished edited.0 edited.1 w k l
