-- ===== src/Apps/Lines.antt =====
-- apps/desktop.rs: how the lines of a list file are read.
use xdg_desktop_portal_aegis.Prelude.{
  ℕ, false, Option, none, some, [], ◌∷◌, ◌++◌, ◌≡◌, refl, ◌⊎◌, inl, inr, Text, contains_char,
  is_whitespace, trim, trim_end, strip_prefix, strip_suffix_char, unless_blank, split_once, split,
  is_empty, append_assoc, subst, arith,
}
use xdg_desktop_portal_aegis.Apps.Desktop.{
  Reading, put_list, read_line, header_of, list_items, keyed_list, starts_with_hash,
}

pub strip_suffix_last : (c : ℕ) (s : Text) → strip_suffix_char c (s ++ c ∷ []) ≡ some s
unfolding strip_suffix_char
strip_suffix_last c [] = ground arith
strip_suffix_last c (x ∷ []) = ground arith
strip_suffix_last c (x ∷ y ∷ s) = ground (arith, strip_suffix_last c (y ∷ s))

-- A text whose last character is no white space is its own trimmed end.
pub trim_end_last :
    (s : Text) (c : ℕ) → is_whitespace c ≡ false → trim_end (s ++ c ∷ []) ≡ s ++ c ∷ []
unfolding trim_end
trim_end_last [] c h = ground (arith, h)
trim_end_last (x ∷ []) c h = ground (arith, h)
trim_end_last (x ∷ y ∷ s) c h = ground (arith, trim_end_last (y ∷ s) c h)

pub split_once_at :
    (c : ℕ) (k v : Text) → contains_char c k ≡ false → split_once c (k ++ c ∷ v) ≡ some (k, v)
unfolding split_once
split_once_at c [] v h = ground arith
split_once_at c (x ∷ k) v h = ground (arith, h, split_once_at c k v)

pub split_at :
    (c : ℕ) (k v : Text) → contains_char c k ≡ false → split c (k ++ c ∷ v) ≡ k ∷ split c v
unfolding split
split_at c [] v h = ground arith
split_at c (x ∷ k) v h = ground (arith, h, split_at c k v)

abbrev pub first_part : Option (Text × Text) → Option Text
first_part none = none
first_part (some (k, v)) = some k

blank_step :
    (c x : ℕ) (s t : Text)
    → ((first_part (split_once c t) ≡ none)
        ⊎ (first_part (split_once c t) ≡ first_part (split_once c s)))
    → (first_part (split_once c (unless_blank x t)) ≡ none)
      ⊎ (first_part (split_once c (unless_blank x t)) ≡ first_part (split_once c (x ∷ s)))
unfolding split_once
blank_step c x s [] h = ground arith
blank_step c x s (d ∷ t) (inl h) = ground (arith, h)
blank_step c x s (d ∷ t) (inr h) = ground (arith, h)

-- Trimming the end of a line changes no key.
pub split_once-trim_end :
    (c : ℕ) (s : Text)
    → (first_part (split_once c (trim_end s)) ≡ none)
      ⊎ (first_part (split_once c (trim_end s)) ≡ first_part (split_once c s))
unfolding trim_end
split_once-trim_end c [] = inr refl
split_once-trim_end c (x ∷ s) = blank_step c x s (trim_end s) (split_once-trim_end c s)

-- A list that begins with a trimmed item that is not empty and holds no semicolon.
pub list_items-first :
    (id more : Text)
    → contains_char b';' id ≡ false
    → trim id ≡ id
    → is_empty id ≡ false
    → list_items (id ++ b';' ∷ more) ≡ id ∷ list_items more
unfolding list_items
list_items-first id more h t e = rw (split_at b';' id more h) (rw t (rw e refl))

-- A key that a line can set: no brackets, no `=`, no blanks around it, and no comment sign first.
pub record IsKey (key : Text) : Type 0 where
  pub no_equals : contains_char b'=' key ≡ false
  pub no_bracket : contains_char b'[' key ≡ false
  pub trimmed : trim key ≡ key
  pub filled : is_empty key ≡ false
  pub no_comment : starts_with_hash key ≡ false

pub keyed_list-key :
    (key value : Text) → IsKey key → keyed_list (key ++ b'=' ∷ value) ≡ some (key, list_items value)
unfolding keyed_list
keyed_list-key key value k =
    ground (arith, split_once_at b'=' key value k.no_equals, k.trimmed, k.filled, k.no_bracket)

no_header :
    (key rest : Text)
    → is_empty key ≡ false
    → contains_char b'[' key ≡ false
    → header_of (key ++ rest) ≡ none
unfolding header_of strip_prefix
no_header [] rest e h = absurd (ground (arith, e))
no_header (c ∷ s) rest e h = ground (arith, h)

no_hash :
    (key rest : Text)
    → is_empty key ≡ false
    → starts_with_hash key ≡ false
    → starts_with_hash (key ++ rest) ≡ false
no_hash [] rest e h = absurd (ground (arith, e))
no_hash (c ∷ s) rest e h = ground (arith, h)

-- A line that sets a key, in a group.
pub read_line-key :
    (key value : Text) (r : Reading)
    → IsKey key
    → is_empty r.group ≡ false
    → read_line r (key ++ b'=' ∷ (value ++ b';' ∷ []))
      ≡ put_list r (some (key, list_items (value ++ b';' ∷ [])))
unfolding read_line is_whitespace
read_line-key key value r k g =
    let line : Text = key ++ b'=' ∷ (value ++ b';' ∷ []) in
    let whole : trim_end line ≡ line =
      subst (λ (t : Text). trim_end t ≡ t) (append_assoc key (b'=' ∷ value) (b';' ∷ []))
        (trim_end_last (key ++ b'=' ∷ value) b';' (ground arith)) in
    rw whole (
      ground (
        arith,
        g,
        no_header key (b'=' ∷ (value ++ b';' ∷ [])) k.filled k.no_bracket,
        no_hash key (b'=' ∷ (value ++ b';' ∷ [])) k.filled k.no_comment,
        keyed_list-key key (value ++ b';' ∷ []) k,
      ))
