-- ===== src/Apps/MimeText.antt =====
-- apps/mimeapps.rs: an edit of a text of whole lines, read back by `parse_grouped_lists`.
use xdg_desktop_portal_aegis.Prelude.{
  ℕ, zero, suc, ◌+◌, ◌≤◌, ◌∙◌, take, length, Bool, true, false, not, ◌&&◌, Option, none, some, List,
  [], ◌∷◌, ◌++◌, ◌≡◌, refl, inl, inr, sym, ap, subst, map, Text, codes, text_eq, contains_char,
  trim, trim_end, trim_start, unless_blank, split_once, split, onto_first, join, ◌==◌,
  if◌then◌else◌, is_empty, retain, All, append_assoc, arith, Bool-cases, Option-cases,
}
use xdg_desktop_portal_aegis.Apps.Desktop.{
  Reading, split_inclusive, lines, read_lines, nothing_read, groups_of, max_entry_bytes,
  read_capped, parse_grouped_lists, header_of,
}
use xdg_desktop_portal_aegis.Apps.Uri.{Bytes}
use xdg_desktop_portal_aegis.Apps.Lines.{strip_suffix_last, IsKey}
use xdg_desktop_portal_aegis.Apps.MimeApps.{
  Edit, nothing_edited, concat, body_of, end_last, key_line, new_value, target_value, edit_line,
  edit_lines, finish_lines, update_default_applications,
}
use xdg_desktop_portal_aegis.Apps.Pieces.{
  IsLine, IsTerminated, split_inclusive-AllLines, read_lines-lines, end_last-AllLines, All-append,
  concat-newline,
}
use xdg_desktop_portal_aegis.Apps.MimeAppsLaws.{IsListed, IsDefault}
use xdg_desktop_portal_aegis.Apps.MimeEdit.{
  edit_line-header, edit_line-target, edit_line-other, edit_lines-IsDefault,
}

abbrev pub OneLine : Text → Type 0
OneLine t = contains_char 10 t ≡ false

OneLine-append : (s t : Text) → OneLine s → OneLine t → OneLine (s ++ t)
OneLine-append [] t h k = k
OneLine-append (c ∷ s) t h k = ground (arith, h, OneLine-append s t (ground (arith, h)) k)

OneLine-trim_start : (s : Text) → OneLine s → OneLine (trim_start s)
unfolding trim_start
OneLine-trim_start [] h = h
OneLine-trim_start (c ∷ s) h = ground (arith, h, OneLine-trim_start s)

OneLine-unless_blank :
    (c : ℕ) (t : Text) → (10 == c) ≡ false → OneLine t → OneLine (unless_blank c t)
OneLine-unless_blank c [] n h = ground (arith, n)
OneLine-unless_blank c (d ∷ t) n h = ground (arith, n, h)

OneLine-trim_end : (s : Text) → OneLine s → OneLine (trim_end s)
unfolding trim_end
OneLine-trim_end [] h = h
OneLine-trim_end (c ∷ s) h =
    OneLine-unless_blank c (trim_end s) (ground (arith, h)) (OneLine-trim_end s (ground (arith, h)))

OneLine-onto_first :
    (c : ℕ) (ts : List Text) → (10 == c) ≡ false → All OneLine ts → All OneLine (onto_first c ts)
OneLine-onto_first c [] n a = (ground (arith, n), tt)
OneLine-onto_first c (t ∷ ts) n (h, a) = (ground (arith, n, h), a)

OneLine-split : (c : ℕ) (s : Text) → OneLine s → All OneLine (split c s)
unfolding split
OneLine-split c [] h = (refl, tt)
OneLine-split c (x ∷ s) h =
    let rest = OneLine-split c s (ground (arith, h)) in
    elim (Bool-cases (x == c)) [
      | inl q ↦ rw q (refl, rest)
      | inr q ↦ rw q (OneLine-onto_first x (split c s) (ground (arith, h)) rest)
    ]

OneLine-retain :
    (p : Text → Bool) (ts : List Text) → All OneLine ts → All OneLine (retain p (map trim ts))
OneLine-retain p [] a = tt
OneLine-retain p (t ∷ ts) (h, a) = elim (Bool-cases (p (trim t))) [
  | inl q ↦ rw q (OneLine-trim_end (trim_start t) (OneLine-trim_start t h), OneLine-retain p ts a)
  | inr q ↦ rw q (OneLine-retain p ts a)
]

OneLine-join : (ts : List Text) → All OneLine ts → OneLine (join (codes ";") ts)
unfolding join
OneLine-join [] a = refl
OneLine-join (t ∷ []) (h, a) = h
OneLine-join (t ∷ u ∷ ts) (h, a) =
    OneLine-append t (b';' ∷ join (codes ";") (u ∷ ts)) h (OneLine-join (u ∷ ts) a)

split_once-OneLine : (c : ℕ) (s k v : Text) → OneLine s → split_once c s ≡ some (k, v) → OneLine v
unfolding split_once
split_once-OneLine c [] k v h e = absurd (ground (arith, e))
split_once-OneLine c (x ∷ s) k v h e = elim (Bool-cases (x == c)) [
  | inl q ↦ ground (arith, h, e, q)
  | inr q ↦ elim (Option-cases (split_once c s)) [
    | inl n ↦ absurd (ground (arith, e, q, n))
    | inr ((k', v'), n) ↦
        ground (arith, e, q, n, split_once-OneLine c s k' v' (ground (arith, h)) n)
  ]
]

take_all : (n : ℕ) (xs : Bytes) → length xs ≤ n → take n xs ≡ xs
take_all zero [] h = refl
take_all zero (x ∷ xs) h = absurd (omega (arith, h))
take_all (suc n) [] h = refl
take_all (suc n) (x ∷ xs) h = ap (◌∷◌ x) (take_all n xs (omega (arith, h)))

-- A file within the cap is read whole.
read_capped_all :
    (from_utf8_lossy : Bytes → Text) (cap : ℕ) (file : Bytes)
    → length file ≤ cap
    → read_capped from_utf8_lossy cap (some file) ≡ some (from_utf8_lossy file)
unfolding read_capped
read_capped_all from_utf8_lossy cap file small =
    let whole = take_all (cap + 1) file (omega (arith, small)) in rw whole (ground (arith, small))

module _ (ct id : Text) where
  key_line-IsLine : (v : Text) → OneLine ct → OneLine v → IsLine (key_line ct id v)
  key_line-IsLine v h k = record {
    body = ct ++ b'=' ∷ (v ++ b';' ∷ []);
    ended = simp append_assoc;
    one_line = OneLine-append ct (b'=' ∷ (v ++ b';' ∷ [])) h (OneLine-append v (b';' ∷ []) k refl);
  }

  new_value-OneLine : (old : Text) → OneLine id → OneLine old → OneLine (new_value ct id old)
  unfolding new_value
  new_value-OneLine old h k =
      OneLine-join
        (id
          ∷ retain (λ (t : Text). not (is_empty t) && not (text_eq t id))
              (map trim (split b';' old)))
        (
          h,
          OneLine-retain (λ (t : Text). not (is_empty t) && not (text_eq t id)) (split b';' old)
              (OneLine-split b';' old k),
        )

  target_value-OneLine :
      (body old : Text) → OneLine body → target_value ct id body ≡ some old → OneLine old
  unfolding target_value
  target_value-OneLine body old h t = elim (Option-cases (split_once b'=' body)) [
    | inl n ↦ absurd (ground (arith, t, n))
    | inr ((k, v), n) ↦ ground (arith, t, n, split_once-OneLine b'=' body k v h n)
  ]

  body-OneLine : (l : Text) → IsLine l → OneLine (body_of l)
  body-OneLine l h = ground (arith, ap body_of h.ended, strip_suffix_last 10 h.body, h.one_line)

  AllLines-header :
      (line name : Text) (e : Edit)
      → OneLine ct
      → OneLine id
      → IsLine line
      → header_of (trim_end (body_of line)) ≡ some name
      → All IsLine (edit_line ct id e line).0
  AllLines-header line name e c i l h =
      rw (edit_line-header ct id line name e h)
        (elim (Bool-cases (e.in_defaults && not e.wrote_key)) [
          | inl q ↦ rw q (key_line-IsLine id c i, (l, tt))
          | inr q ↦ rw q (l, tt)
        ])

  AllLines-target :
      (line : Text) (e : Edit) (target : Option Text)
      → OneLine ct
      → OneLine id
      → IsLine line
      → header_of (trim_end (body_of line)) ≡ none
      → e.in_defaults ≡ true
      → target_value ct id (body_of line) ≡ target
      → All IsLine (edit_line ct id e line).0
  AllLines-target line e none c i l h d t = rw (edit_line-other ct id line e h (inl t)) (l, tt)
  AllLines-target line e (some old) c i l h d t = rw (edit_line-target ct id line old e h d t) (
    key_line-IsLine (new_value ct id old) c
        (new_value-OneLine old i (target_value-OneLine (body_of line) old (body-OneLine line l) t)),
    tt,
  )

  edit_line-AllLines :
      (line : Text) (e : Edit)
      → OneLine ct
      → OneLine id
      → IsLine line
      → All IsLine (edit_line ct id e line).0
  edit_line-AllLines line e c i l = elim (Option-cases (header_of (trim_end (body_of line)))) [
    | inr (name, h) ↦ AllLines-header line name e c i l h
    | inl h ↦ elim (Bool-cases e.in_defaults) [
      | inl d ↦ AllLines-target line e (target_value ct id (body_of line)) c i l h d refl
      | inr d ↦ rw (edit_line-other ct id line e h (inr d)) (l, tt)
    ]
  ]

  edit_lines-AllLines :
      (ls : List Text) (e : Edit)
      → OneLine ct
      → OneLine id
      → All IsLine ls
      → All IsLine (edit_lines ct id e ls).0
  unfolding edit_lines
  edit_lines-AllLines [] e c i a = tt
  edit_lines-AllLines (l ∷ ls) e c i (h, a) =
      let first = edit_line ct id e l in
      All-append first.0 (edit_lines ct id first.1 ls).0 (edit_line-AllLines l e c i h)
        (edit_lines-AllLines ls first.1 c i a)

  appended-AllLines :
      (b : Bool) (out : List Text)
      → OneLine ct
      → OneLine id
      → All IsLine out
      → All IsLine (if b then out ++ key_line ct id id ∷ [] else out)
  appended-AllLines true out c i a =
      All-append out (key_line ct id id ∷ []) a (key_line-IsLine id c i, tt)
  appended-AllLines false out c i a = a

  grouped-AllLines :
      (b : Bool) (out : List Text)
      → OneLine ct
      → OneLine id
      → All IsLine out
      → All IsLine (
          end_last out
          ++ (if b then [] else codes "\n" ∷ [])
          ++ codes "[Default Applications]\n" ∷ key_line ct id id ∷ [])
  grouped-AllLines b out c i a = rw (end_last-AllLines out a) (
      All-append (out ++ (if b then [] else codes "\n" ∷ []))
        (codes "[Default Applications]\n" ∷ key_line ct id id ∷ [])
        (All-append out (if b then [] else codes "\n" ∷ []) a (blank b))
        (
          record { body = codes "[Default Applications]"; ended = refl; one_line = refl },
          (key_line-IsLine id c i, tt),
        ))
    where
      blank : (b : Bool) → All IsLine (if b then [] else codes "\n" ∷ [])
      blank true = tt
      blank false = (record { body = []; ended = refl; one_line = refl }, tt)

  finish_lines-AllLines :
      (e : Edit) (out : List Text)
      → OneLine ct
      → OneLine id
      → All IsLine out
      → All IsLine (finish_lines ct id e out)
  unfolding finish_lines
  finish_lines-AllLines e out c i a =
      let b : Bool = e.in_defaults && not e.wrote_key in
      let ended : List Text = if b then out ++ key_line ct id id ∷ [] else out in
      let all = appended-AllLines b out c i a in
      elim (Bool-cases e.seen_group) [
        | inl s ↦ rw s all
        | inr s ↦ rw s (grouped-AllLines (is_empty ended) ended c i all)
      ]

  updated_lines :
      (text : Text)
      → IsTerminated text
      → IsKey ct
      → IsListed id
      → OneLine ct
      → OneLine id
      → IsDefault ct id
          (read_lines nothing_read (lines (update_default_applications ct id text))).groups
  unfolding update_default_applications
  updated_lines text ended k l c i =
      let ls : List Text = split_inclusive text in
      let edited : List Text × Edit = edit_lines ct id nothing_edited ls in
      let out : List Text = finish_lines ct id edited.1 edited.0 in
      let whole : All IsLine out =
        finish_lines-AllLines edited.1 edited.0 c i
          (edit_lines-AllLines ls nothing_edited c i (split_inclusive-AllLines text ended)) in
      let updated : update_default_applications ct id text ≡ concat out =
        rw (concat-newline out whole) refl in
      subst (λ (t : Text). IsDefault ct id (read_lines nothing_read (lines t)).groups) (sym updated)
        (subst (λ (r : Reading). IsDefault ct id r.groups)
          (sym (read_lines-lines nothing_read out whole)) (edit_lines-IsDefault ct id ls k l))

  -- The edit of a text of which every line is ended, written as bytes, is read by
  -- `parse_grouped_lists` with the id in front of the content type's list in the default
  -- applications, if these bytes are at most the 262144 that it accepts of a file. The content
  -- type is a key that a line can hold, the id an item that a list can hold, and neither holds a
  -- line feed; a text is what its own bytes are read as.
  pub update-parse_grouped_lists :
      (into_bytes : Text → Bytes) (from_utf8_lossy : Bytes → Text)
      → ((t : Text) → from_utf8_lossy (into_bytes t) ≡ t)
      → (text : Text) → IsTerminated text
      → IsKey ct
      → IsListed id
      → OneLine ct
      → OneLine id
      → length (into_bytes (update_default_applications ct id text)) ≤ max_entry_bytes
      → IsDefault ct id (
          parse_grouped_lists from_utf8_lossy
            (some (into_bytes (update_default_applications ct id text))))
  unfolding parse_grouped_lists
  update-parse_grouped_lists into_bytes from_utf8_lossy reads text ended k l c i small =
      let updated : Text = update_default_applications ct id text in
      let same : read_capped from_utf8_lossy max_entry_bytes (some (into_bytes updated))
          ≡ some updated =
        read_capped_all from_utf8_lossy max_entry_bytes (into_bytes updated) small
        ∙ ap some (reads updated) in
      subst (λ r. IsDefault ct id (groups_of r)) (sym same) (updated_lines text ended k l c i)
