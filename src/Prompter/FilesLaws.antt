-- ===== src/Prompter/FilesLaws.antt =====
-- lib.rs: what `finish_paths` returns, and that the portal accepts it.
use xdg_desktop_portal_aegis.Prelude.{
  ℕ, suc, ◌≡◌, refl, sym, ap, subst, true, false, Option, some, List, [], ◌∷◌, Text, All, length,
  contains_char, is_empty, ◌==◌, ==_iff, ok, ◌>>=◌, bind-inverse, arith,
}
use xdg_desktop_portal_aegis.Prompter.Choices.{validate_choice_answers}
use xdg_desktop_portal_aegis.Prompter.Paths.{
  Bytes, is_absolute, path_eq, Metadata, path_occupied, reserves, is_free, unique_child,
}
use xdg_desktop_portal_aegis.Prompter.PathLaws.{
  unique_child_found, is_absolute-join_path, join_path_clean,
}
use xdg_desktop_portal_aegis.Prompter.Files.{
  FileChooserRequest, FileFilter, is_save_files, save_files, finish_names, finish_paths,
  selected_files, expected_paths, differs, check_paths, check_filter, validate_response,
}

-- No path is equal to one before it.
abbrev pub Apart : List Bytes → Type 0
Apart [] = Unit
Apart (p ∷ ps) = All (λ q. path_eq q p ≡ false) ps × Apart ps

-- A path that the portal can hand out: absolute and without a zero byte.
abbrev pub IsLocal : Bytes → Type 0
IsLocal p = (is_absolute p ≡ true) × (contains_char 0 p ≡ false)

check_paths_local : (ps : List Bytes) → All IsLocal ps → check_paths ps ≡ ok tt
unfolding check_paths
check_paths_local [] h = refl
check_paths_local (p ∷ ps) ((a, c), rest) = ground (arith, a, c, check_paths_local ps rest)

==_refl : (n : ℕ) → (n == n) ≡ true
==_refl n = (==_iff n n).1 refl

module _ (symlink_metadata : Bytes → Metadata) where
  abbrev pub IsVacant : Bytes → Type 0
  IsVacant p = path_occupied (symlink_metadata p) ≡ false

  abbrev IsAway : List Bytes → Bytes → Type 0
  IsAway reserved q = reserves reserved q ≡ false

  IsAway-split :
      (p : Bytes) (reserved ps : List Bytes)
      → All (IsAway (p ∷ reserved)) ps
      → All (λ q. path_eq q p ≡ false) ps × All (IsAway reserved) ps
  IsAway-split p reserved [] h = (tt, tt)
  IsAway-split p reserved (q ∷ ps) (h, rest) =
      let (a, b) = IsAway-split p reserved ps rest in
      ((ground (arith, h), a), (ground (arith, h), b))

  finish_names_found :
      (folder : Bytes) (reserved names paths : List Bytes)
      → finish_names symlink_metadata folder reserved names ≡ ok paths
      → (length paths ≡ length names)
        × All IsVacant paths
        × All (IsAway reserved) paths
        × Apart paths
  unfolding finish_names
  finish_names_found folder reserved [] [] h = (refl, tt, tt, tt)
  finish_names_found folder reserved [] (p ∷ ps) h = cc
  finish_names_found folder reserved (n ∷ ns) paths h =
      let (p, first, rest) =
        bind-inverse (unique_child symlink_metadata folder n reserved)
          (λ path. do
            ps ← finish_names symlink_metadata folder (path ∷ reserved) ns
            ok (path ∷ ps))
          h in
      let (ps, later, done) =
        bind-inverse (finish_names symlink_metadata folder (p ∷ reserved) ns) (λ ps. ok (p ∷ ps))
          rest in
      let e : (p ∷ ps) ≡ paths = ground (arith, done) in
      let (l, v, a, d) = finish_names_found folder (p ∷ reserved) ns ps later in
      let (chosen, shape, clean, free) =
        unique_child_found symlink_metadata folder n reserved p first in
      let (apart, away) = IsAway-split p reserved ps a in
      let here : IsVacant p × IsAway reserved p =
        unfold is_free in (ground (arith, free), ground (arith, free)) in
      subst
        (λ xs.
          (length xs ≡ length (n ∷ ns)) × All IsVacant xs × All (IsAway reserved) xs × Apart xs)
        e (ap suc l, (here.0, v), (here.1, away), (apart, d))

  finish_names-IsLocal :
      (folder : Bytes) (reserved names paths : List Bytes)
      → IsLocal folder
      → finish_names symlink_metadata folder reserved names ≡ ok paths
      → All IsLocal paths
  unfolding finish_names
  finish_names-IsLocal folder reserved [] [] l h = tt
  finish_names-IsLocal folder reserved [] (p ∷ ps) l h = cc
  finish_names-IsLocal folder reserved (n ∷ ns) paths l h =
      let (p, first, rest) =
        bind-inverse (unique_child symlink_metadata folder n reserved)
          (λ path. do
            ps ← finish_names symlink_metadata folder (path ∷ reserved) ns
            ok (path ∷ ps))
          h in
      let (ps, later, done) =
        bind-inverse (finish_names symlink_metadata folder (p ∷ reserved) ns) (λ ps. ok (p ∷ ps))
          rest in
      let e : (p ∷ ps) ≡ paths = ground (arith, done) in
      let (chosen, shape, clean, free) =
        unique_child_found symlink_metadata folder n reserved p first in
      subst (All IsLocal) e (
        subst IsLocal (sym shape)
            (is_absolute-join_path folder chosen l.0, join_path_clean folder chosen l.1 clean),
        finish_names-IsLocal folder (p ∷ reserved) ns ps l later,
      )

  -- What `finish_paths` returns for a request to save several files is one path for each requested
  -- name; nothing exists at any of them when the file system is asked, and no path is equal, piece
  -- by piece, to one before it.
  pub finish_paths_fresh :
      (r : FileChooserRequest) (selected paths : List Bytes)
      → r.mode ≡ save_files
      → finish_paths symlink_metadata r selected ≡ ok paths
      → (length paths ≡ length r.files) × All IsVacant paths × Apart paths
  unfolding finish_paths
  finish_paths_fresh r [] paths m h = absurd (ground (arith, ap is_save_files m, h))
  finish_paths_fresh r (folder ∷ more) paths m h =
      let (l, v, a, d) =
        finish_names_found folder [] r.files paths (ground (arith, ap is_save_files m, h)) in
      (l, v, d)

  -- The answer that a save dialog builds passes the portal's check: if the user selects an absolute
  -- folder without a zero byte, `finish_paths` succeeds on it, at least one name was requested, the
  -- filter was offered and the choices are answered, then `validate_for` accepts the paths.
  pub finish_paths-validate_response :
      (r : FileChooserRequest) (folder : Bytes) (more paths : List Bytes)
      (filter : Option FileFilter) (answers : List (Text × Text))
      → r.mode ≡ save_files
      → is_empty r.files ≡ false
      → IsLocal folder
      → check_filter r filter ≡ ok tt
      → validate_choice_answers answers r.choices ≡ ok tt
      → finish_paths symlink_metadata r (folder ∷ more) ≡ ok paths
      → validate_response (selected_files paths filter answers) r ≡ ok tt
  unfolding finish_paths validate_response
  finish_paths-validate_response r folder more paths filter answers m some_file l f c h =
      let run : finish_names symlink_metadata folder [] r.files ≡ ok paths =
        ground (arith, ap is_save_files m, h) in
      let local = check_paths_local paths (finish_names-IsLocal folder [] r.files paths l run) in
      let count = (finish_names_found folder [] r.files paths run).0 in
      let expected : expected_paths r r.mode ≡ some (length r.files) = ap (expected_paths r) m in
      let empty_alike : is_empty paths ≡ false = same_emptiness paths r.files count some_file in
      ground (
        arith,
        empty_alike,
        expected,
        ap (λ n. differs n (some (length r.files))) count,
        ==_refl (length r.files),
        local,
        f,
        c,
      )
    where
      same_emptiness :
          (ps qs : List Bytes) → length ps ≡ length qs → is_empty qs ≡ false → is_empty ps ≡ false
      same_emptiness [] [] e h = h
      same_emptiness [] (q ∷ qs) e h = absurd (omega arith)
      same_emptiness (p ∷ ps) qs e h = refl
