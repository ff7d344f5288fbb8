-- ===== src/Prompter/PathLaws.antt =====
-- lib.rs: what `unique_child` returns, and how paths are joined.
use xdg_desktop_portal_aegis.Prelude.{
  ℕ, zero, suc, ◌+◌, ◌/◌, ◌%◌, ◌≤◌, ◌<◌, ◌≡◌, refl, sym, subst, ◌∙◌, inl, inr, true, false, ◌||◌,
  Option, none, some, List, [], ◌∷◌, ◌++◌, codes, contains_char, decimal, decimal_onto, ◌==◌,
  ==_iff, Bool-cases, Option-cases, ok, bind-inverse, arith,
}
use xdg_desktop_portal_aegis.Prompter.Paths.{
  Bytes, is_absolute, join_path, validate_basename, last_dot, split_extension, with_extension,
  suffixed, Metadata, u32_max, is_free, first_free, or_no_name, unique_child,
}

pub contains_char-append :
    (c : ℕ) (s t : Bytes) → contains_char c (s ++ t) ≡ (contains_char c s || contains_char c t)
contains_char-append c [] t = refl
contains_char-append c (x ∷ s) t = ground (arith, contains_char-append c s t)

decimal_onto_clean :
    (fuel n : ℕ) (rest : Bytes)
    → contains_char 0 rest ≡ false
    → contains_char 0 (decimal_onto fuel n rest) ≡ false
decimal_onto_clean zero n rest h = h
decimal_onto_clean (suc fuel) n rest h =
    ground (arith, decimal_onto_clean fuel (n / 10) ((b'0' + n % 10) ∷ rest) (ground (arith, h)))

last_dot_clean :
    (name before behind : Bytes)
    → contains_char 0 name ≡ false
    → last_dot name ≡ some (before, behind)
    → (contains_char 0 before ≡ false) × (contains_char 0 behind ≡ false)
last_dot_clean [] before behind h e = absurd (ground arith)
last_dot_clean (b ∷ bs) before behind h e = elim (Option-cases (last_dot bs)) [
  | inl q ↦ ground (arith, q, e, h)
  | inr ((u, v), q) ↦
      let rest = last_dot_clean bs u v (ground (arith, h)) q in
      ground (arith, q, e, h, rest.0, rest.1)
]

with_extension_clean :
    (bytes : Bytes) (extension : Option Bytes)
    → contains_char 0 bytes ≡ false
    → contains_char 0 (with_extension [] extension) ≡ false
    → contains_char 0 (with_extension bytes extension) ≡ false
with_extension_clean bytes none h e = h
with_extension_clean bytes (some x) h e =
    ground (arith, contains_char-append 0 bytes (b'.' ∷ x), h, e)

split_extension_clean :
    (name : Bytes)
    → contains_char 0 name ≡ false
    → (contains_char 0 (split_extension name).0 ≡ false)
      × (contains_char 0 (with_extension [] (split_extension name).1) ≡ false)
unfolding split_extension
split_extension_clean name h = elim (Option-cases (last_dot name)) [
  | inl q ↦ ground (arith, q, h)
  | inr ((u, v), q) ↦
      let parts = last_dot_clean name u v h q in ground (arith, q, h, parts.0, parts.1)
]

suffixed_clean :
    (name : Bytes) (suffix : ℕ)
    → contains_char 0 name ≡ false
    → contains_char 0 (suffixed (split_extension name) suffix) ≡ false
unfolding decimal
suffixed_clean name suffix h =
    let parts = split_extension_clean name h in
    let stem = (split_extension name).0 in
    let number = decimal_onto_clean 10 suffix [] refl in
    with_extension_clean (stem ++ (codes "(" ++ (decimal suffix ++ codes ")")))
      (split_extension name).1
      (ground (
        arith,
        contains_char-append 0 stem (codes "(" ++ (decimal suffix ++ codes ")")),
        contains_char-append 0 (decimal suffix) (codes ")"),
        number,
        parts.0,
      ))
      parts.1

pub is_absolute-join_path :
    (folder name : Bytes) → is_absolute folder ≡ true → is_absolute (join_path folder name) ≡ true
unfolding join_path
is_absolute-join_path [] name h = absurd (ground arith)
is_absolute-join_path (b ∷ bs) name h = ground arith

pub join_path_clean :
    (folder name : Bytes)
    → contains_char 0 folder ≡ false
    → contains_char 0 name ≡ false
    → contains_char 0 (join_path folder name) ≡ false
unfolding join_path
join_path_clean folder name h n =
    ground (arith, contains_char-append 0 folder name, contains_char-append 0 folder (b'/' ∷ name))

module _ (symlink_metadata : Bytes → Metadata) where
  -- The candidate of the loop's turn with this suffix.
  abbrev pub candidate : Bytes → Bytes → ℕ → Bytes
  candidate folder name suffix = join_path folder (suffixed (split_extension name) suffix)

  first_free_found :
      (folder name : Bytes) (reserved : List Bytes) (turns suffix : ℕ) (p : Bytes)
      → first_free symlink_metadata folder (split_extension name) reserved turns suffix ≡ some p
      → (j : ℕ) × (p ≡ candidate folder name j) × (is_free symlink_metadata reserved p ≡ true)
  unfolding first_free
  first_free_found folder name reserved zero suffix p h = absurd (ground arith)
  first_free_found folder name reserved (suc turns) suffix p h =
      elim (Bool-cases (is_free symlink_metadata reserved (candidate folder name suffix))) [
        | inl q ↦ (suffix, ground (arith, h, q), ground (arith, h, q))
        | inr q ↦ first_free_found folder name reserved turns (suc suffix) p (ground (arith, h, q))
      ]

  -- The loop passes over the suffixes that are taken.
  first_free_first :
      (folder name : Bytes) (reserved : List Bytes) (turns suffix k : ℕ)
      → suffix ≤ k
      → k < suffix + turns
      → is_free symlink_metadata reserved (candidate folder name k) ≡ true
      → ((j : ℕ)
          → suffix ≤ j
          → j < k
          → is_free symlink_metadata reserved (candidate folder name j) ≡ false)
      → first_free symlink_metadata folder (split_extension name) reserved turns suffix
        ≡ some (candidate folder name k)
  unfolding first_free
  first_free_first folder name reserved zero suffix k from bound free taken = absurd (omega arith)
  first_free_first folder name reserved (suc turns) suffix k from bound free taken =
      elim (Bool-cases (k == suffix)) [
        | inl q ↦ let same = (==_iff k suffix).0 q in ground (arith, same, free)
        | inr q ↦ ground (
          arith,
          taken suffix (omega arith) (ground arith),
          first_free_first folder name reserved turns (suc suffix) k (ground arith) (omega arith)
              free (λ j low high. taken j (omega arith) high),
        )
      ]

  -- The paths in the order in which they are tried: the proposed name, then the numbered ones.
  abbrev pub proposal : Bytes → Bytes → ℕ → Bytes
  proposal folder name zero = join_path folder name
  proposal folder name (suc j) = candidate folder name (suc j)

  numbered_taken :
      (folder name : Bytes) (reserved : List Bytes) (k j : ℕ)
      → ((i : ℕ) → i < k → is_free symlink_metadata reserved (proposal folder name i) ≡ false)
      → 1 ≤ j
      → j < k
      → is_free symlink_metadata reserved (candidate folder name j) ≡ false
  numbered_taken folder name reserved k zero taken low below = absurd (omega (arith, low))
  numbered_taken folder name reserved k (suc j) taken low below = taken (suc j) below

  -- For a valid name, `unique_child` returns the first free path of these: the proposed name in the
  -- folder, and then the numbered names up to the suffix 4294967295, if any of them is free.
  pub unique_child_first :
      (folder name : Bytes) (reserved : List Bytes) (k : ℕ)
      → validate_basename name ≡ ok tt
      → k ≤ u32_max
      → is_free symlink_metadata reserved (proposal folder name k) ≡ true
      → ((j : ℕ) → j < k → is_free symlink_metadata reserved (proposal folder name j) ≡ false)
      → unique_child symlink_metadata folder name reserved ≡ ok (proposal folder name k)
  unfolding unique_child
  unique_child_first folder name reserved zero valid high free taken = ground (arith, valid, free)
  unique_child_first folder name reserved (suc k) valid high free taken = ground (
    arith,
    valid,
    taken zero (omega arith),
    first_free_first folder name reserved u32_max 1 (suc k) (omega arith) (omega arith) free
        (λ j low below. numbered_taken folder name reserved (suc k) j taken low below),
  )

  -- A chosen path is a free one in the folder, by a name without a zero byte.
  pub unique_child_found :
      (folder name : Bytes) (reserved : List Bytes) (p : Bytes)
      → unique_child symlink_metadata folder name reserved ≡ ok p
      → (chosen : Bytes) × (p ≡ join_path folder chosen)
        × (contains_char 0 chosen ≡ false)
        × (is_free symlink_metadata reserved p ≡ true)
  unfolding unique_child validate_basename
  unique_child_found folder name reserved p h =
      let (u, valid, chosen) =
        bind-inverse (validate_basename name)
          (λ _. elim (is_free symlink_metadata reserved (join_path folder name)) [
            | true ↦ ok (join_path folder name)
            | false ↦
                or_no_name name
                  (first_free symlink_metadata folder (split_extension name) reserved u32_max 1)
          ])
          h in
      let clean : contains_char 0 name ≡ false = ground (arith, valid) in
      elim (Bool-cases (is_free symlink_metadata reserved (join_path folder name))) [
        | inl q ↦ (name, ground (arith, chosen, q), clean, ground (arith, chosen, q))
        | inr q ↦
            elim (Option-cases
              (first_free symlink_metadata folder (split_extension name) reserved u32_max 1)) [
                | inl none_left ↦ absurd (ground (arith, chosen, q, none_left))
                | inr (r, found) ↦
                    let (j, e, free) = first_free_found folder name reserved u32_max 1 r found in
                    let same : r ≡ p = ground (arith, chosen, q, found) in
                    (
                      suffixed (split_extension name) j,
                      sym same ∙ e,
                      suffixed_clean name j clean,
                      subst (λ x. is_free symlink_metadata reserved x ≡ true) same free,
                    )
              ]
      ]
