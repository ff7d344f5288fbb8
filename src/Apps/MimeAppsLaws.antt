-- ===== src/Apps/MimeAppsLaws.antt =====
-- apps/mimeapps.rs: what a reader finds in the lines that one round of the edit puts out.
use xdg_desktop_portal_aegis.Prelude.{
  true, false, not, ◌&&◌, ◌||◌, Option, none, some, List, [], ◌∷◌, ◌++◌, ◌≡◌, refl, ◌⊎◌, inl, inr,
  sym, ap, ◌∙◌, subst, map, Text, codes, text_eq, text_eq_iff, text_eq_refl, contains_char, trim,
  trim_end, split, join, is_empty, unwrap_or, retain, append_assoc, Map, lookup, insert,
  lookup-insert, arith, Bool-cases,
}
use xdg_desktop_portal_aegis.Apps.Desktop.{
  Groups, Reading, put_list, read_entry, read_line, read_lines, header_of, list_items, keyed_list,
  starts_with_hash,
}
use xdg_desktop_portal_aegis.Apps.Lines.{
  strip_suffix_last, list_items-first, IsKey, read_line-key, split_once-trim_end,
}
use xdg_desktop_portal_aegis.Apps.MimeApps.{Edit, body_of, key_line, new_value, target_value}

abbrev pub defaults : Text
defaults = codes "Default Applications"

-- An id that an association list can hold.
pub record IsListed (id : Text) : Type 0 where
  pub no_semicolon : contains_char b';' id ≡ false
  pub trimmed : trim id ≡ id
  pub filled : is_empty id ≡ false

module _ (ct id : Text) where
  -- The reader has found `id` in front of the list of `ct`.
  abbrev pub IsDefault : Groups → Type 0
  IsDefault gs =
      (rest : List Text) × (lookup ct (unwrap_or [] (lookup defaults gs)) ≡ some (id ∷ rest))

  body-key_line : (v : Text) → body_of (key_line ct id v) ≡ ct ++ b'=' ∷ (v ++ b';' ∷ [])
  body-key_line v =
      let body : Text = ct ++ b'=' ∷ (v ++ b';' ∷ []) in
      let flat : body ++ 10 ∷ [] ≡ key_line ct id v = simp append_assoc in
      subst (λ (t : Text). body_of t ≡ body) flat (rw (strip_suffix_last 10 body) refl)

  join_first :
      (others : List Text)
      → (more : Text) × (join (codes ";") (id ∷ others) ++ b';' ∷ [] ≡ id ++ b';' ∷ more)
  unfolding join
  join_first [] = ([], refl)
  join_first (u ∷ us) = (
    join (codes ";") (u ∷ us) ++ b';' ∷ [],
    append_assoc id (b';' ∷ join (codes ";") (u ∷ us)) (b';' ∷ []),
  )

  -- Every value written begins with the id and a semicolon.
  new_value_first :
      (old : Text) → (more : Text) × (new_value ct id old ++ b';' ∷ [] ≡ id ++ b';' ∷ more)
  unfolding new_value
  new_value_first old =
      join_first
        (retain (λ (t : Text). not (is_empty t) && not (text_eq t id)) (map trim (split b';' old)))

  pub read-key_line :
      (v more : Text) (r : Reading)
      → IsKey ct
      → IsListed id
      → r.group ≡ defaults
      → v ++ b';' ∷ [] ≡ id ++ b';' ∷ more
      → ((read_line r (body_of (key_line ct id v))).group ≡ defaults)
        × IsDefault (read_line r (body_of (key_line ct id v))).groups
  read-key_line v more r k l g e =
      let items : list_items (v ++ b';' ∷ []) ≡ id ∷ list_items more =
        rw e (list_items-first id more l.no_semicolon l.trimmed l.filled) in
      let ids : List Text = id ∷ list_items more in
      let read : read_line r (body_of (key_line ct id v)) ≡ put_list r (some (ct, ids)) =
        rw (body-key_line v) (
          read_line-key ct v r k (rw g refl)
          ∙ ap (λ (l : List Text). put_list r (some (ct, l))) items) in
      let old : Map (List Text) = unwrap_or [] (lookup r.group r.groups) in
      rw read (
        g,
        (
          list_items more,
          ground (
            arith,
            lookup-insert r.group defaults (insert ct ids old) r.groups,
            lookup-insert ct ct ids old,
            text_eq_refl ct,
            text_eq_iff r.group defaults,
            g,
          ),
        ),
      )

  put_list-IsDefault :
      (key : Text) (ids : List Text) (r : Reading)
      → (text_eq key ct ≡ false) ⊎ (text_eq r.group defaults ≡ false)
      → IsDefault r.groups
      → IsDefault (put_list r (some (key, ids))).groups
  put_list-IsDefault key ids r other (rest, f) =
      let old : Map (List Text) = unwrap_or [] (lookup r.group r.groups) in
      (
        rest,
        ground (
          arith,
          f,
          other,
          lookup-insert r.group defaults (insert key ids old) r.groups,
          lookup-insert key ct ids old,
          text_eq_iff r.group defaults,
        ),
      )

  -- A line that is not the one to replace sets another key.
  keyed_other :
      (line key : Text) (ids : List Text)
      → target_value ct id line ≡ none
      → keyed_list (trim_end line) ≡ some (key, ids)
      → text_eq key ct ≡ false
  unfolding target_value keyed_list
  keyed_other line key ids t e = ground (arith, t, e, split_once-trim_end b'=' line)

  -- What the editing loop knows agrees with what the reader has read of its output.
  pub record Follows (e : Edit) (r : Reading) : Type 0 where
    pub here : e.in_defaults ≡ text_eq r.group defaults
    pub found : e.wrote_key ≡ true → IsDefault r.groups
    pub seen : e.seen_group ≡ true → (e.in_defaults || e.wrote_key) ≡ true

  kept_by :
      (line : Text) (r : Reading) (entry : Option (Text × List Text))
      → (target_value ct id line ≡ none) ⊎ (text_eq r.group defaults ≡ false)
      → IsDefault r.groups
      → keyed_list (trim_end line) ≡ entry
      → IsDefault (put_list r entry).groups
  kept_by line r none other f e = f
  kept_by line r (some (key, ids)) (inl t) f e =
      put_list-IsDefault key ids r (inl (keyed_other line key ids t e)) f
  kept_by line r (some (key, ids)) (inr g) f e = put_list-IsDefault key ids r (inr g) f

  read_entry-IsDefault :
      (line : Text) (r : Reading)
      → (target_value ct id line ≡ none) ⊎ (text_eq r.group defaults ≡ false)
      → IsDefault r.groups
      → IsDefault (read_entry r (trim_end line)).groups
  read_entry-IsDefault line r other f =
      elim (Bool-cases (is_empty r.group || starts_with_hash (trim_end line))) [
        | inl q ↦ rw q f
        | inr q ↦ rw q (kept_by line r (keyed_list (trim_end line)) other f refl)
      ]

  read_entry-group : (line : Text) (r : Reading) → (read_entry r line).group ≡ r.group
  read_entry-group line r = elim (Bool-cases (is_empty r.group || starts_with_hash line)) [
    | inl q ↦ rw q refl
    | inr q ↦ rw q (put_list-group r (keyed_list line))
  ]
    where
      put_list-group :
          (r : Reading) (entry : Option (Text × List Text)) → (put_list r entry).group ≡ r.group
      put_list-group r none = refl
      put_list-group r (some (key, ids)) = refl

  -- What one round puts out, read, agrees with what the loop then knows.
  abbrev pub Stays : Reading → List Text × Edit → Type 0
  Stays r p = Follows p.1 (read_lines r (map body_of p.0))

  pub in_defaults-group :
      (e : Edit) (r : Reading) → Follows e r → e.in_defaults ≡ true → r.group ≡ defaults
  in_defaults-group e r w q = ground (arith, q, w.here, text_eq_iff r.group defaults)

  pub read-header :
      (line name : Text) (r : Reading)
      → header_of (trim_end line) ≡ some name
      → read_line r line ≡ record r { group = name }
  unfolding read_line
  read-header line name r h = rw h refl

  read-entry :
      (line : Text) (r : Reading)
      → header_of (trim_end line) ≡ none
      → read_line r line ≡ read_entry r (trim_end line)
  unfolding read_line
  read-entry line r h = rw h refl

  pub Stays-leaving :
      (line name : Text) (e : Edit) (r : Reading)
      → IsKey ct
      → IsListed id
      → header_of (trim_end (body_of line)) ≡ some name
      → e.in_defaults ≡ true
      → Follows e r
      → Stays r (
        key_line ct id id ∷ line ∷ [],
        record {
          in_defaults = text_eq name defaults;
          seen_group = e.seen_group || text_eq name defaults;
          wrote_key = true;
        },
      )
  unfolding read_lines
  Stays-leaving line name e r k l h q w =
      let first = read-key_line id [] r k l (in_defaults-group e r w q) refl in
      let r1 : Reading = read_line r (body_of (key_line ct id id)) in
      rw (read-header (body_of line) name r1 h)
        (record { here = refl; found = λ _. first.1; seen = λ _. ground arith })

  pub Stays-header :
      (line name : Text) (e : Edit) (r : Reading)
      → header_of (trim_end (body_of line)) ≡ some name
      → (e.in_defaults && not e.wrote_key) ≡ false
      → Follows e r
      → Stays r (
        line ∷ [],
        record {
          in_defaults = text_eq name defaults;
          seen_group = e.seen_group || text_eq name defaults;
          wrote_key = e.wrote_key;
        },
      )
  unfolding read_lines
  Stays-header line name e r h q w =
      rw (read-header (body_of line) name r h)
        (record { here = refl; found = w.found; seen = λ s. ground (arith, q, s, w.seen) })

  pub Stays-target :
      (line old : Text) (e : Edit) (r : Reading)
      → IsKey ct
      → IsListed id
      → e.in_defaults ≡ true
      → Follows e r
      → Stays r (key_line ct id (new_value ct id old) ∷ [], record e { wrote_key = true })
  unfolding read_lines
  Stays-target line old e r k l q w =
      let (more, starts) = new_value_first old in
      let (g, f) =
        read-key_line (new_value ct id old) more r k l (in_defaults-group e r w q) starts in
      record {
        here = rw g (ground (arith, q, text_eq_refl defaults));
        found = λ _. f;
        seen = λ _. ground (arith, q);
      }

  pub Stays-other :
      (line : Text) (e : Edit) (r : Reading)
      → header_of (trim_end (body_of line)) ≡ none
      → (target_value ct id (body_of line) ≡ none) ⊎ (text_eq r.group defaults ≡ false)
      → Follows e r
      → Stays r (line ∷ [], e)
  unfolding read_lines
  Stays-other line e r h other w =
      let body : Text = body_of line in
      rw (read-entry body r h) (record {
        here =
            w.here
            ∙ ap (λ (g : Text). text_eq g defaults) (sym (read_entry-group (trim_end body) r));
        found = λ s. read_entry-IsDefault body r other (w.found s);
        seen = w.seen;
      })
