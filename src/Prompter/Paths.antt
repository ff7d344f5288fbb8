-- ===== src/Prompter/Paths.antt =====
-- Unix paths as byte lists, as `std::path` reads them, and the path helpers of lib.rs:
-- `validate_basename`, `validate_absolute_path`, `split_extension` and `unique_child`.
use xdg_desktop_portal_aegis.Prelude.{
  ℕ, zero, suc, Bool, true, false, not, ◌&&◌, ◌||◌, Option, none, some, List, [], ◌∷◌, ◌++◌, Text,
  codes, text_eq, contains_char, split, decimal, is_empty, any_of, ◌==◌, if◌then◌else◌, Result, ok,
  err, refuse_if, ◌>>◌,
}
use xdg_desktop_portal_aegis.Prompter.Choices.{
  PromptError, basename_nul, not_a_basename, not_absolute, no_unique_name,
}

-- The bytes of a path: `OsStr::as_bytes`, and the field of `BytePath`.
abbrev pub Bytes : Type 0
Bytes = List ℕ

pub data Component : Type 0 where
  root_dir cur_dir parent_dir : Component
  normal : Bytes → Component

abbrev pub is_absolute : Bytes → Bool
is_absolute [] = false
is_absolute (b ∷ bs) = b == b'/'

-- The pieces between slashes: empty ones and `.` count for nothing.
unfoldable pub pieces : List Bytes → List Component
pieces [] = []
pieces (p ∷ ps) =
    let rest = pieces ps in
    if is_empty p || text_eq p (codes ".")
    then rest
    else if text_eq p (codes "..")
    then parent_dir ∷ rest
    else normal p ∷ rest

-- `.` counts at the front of a relative path.
abbrev pub leading : List Bytes → List Component
leading [] = []
leading (p ∷ ps) = if text_eq p (codes ".") then cur_dir ∷ pieces ps else pieces (p ∷ ps)

-- `Path::components`.
unfoldable pub components : Bytes → List Component
components p = if is_absolute p then root_dir ∷ pieces (split b'/' p) else leading (split b'/' p)

abbrev pub component_eq : Component → Component → Bool
component_eq root_dir root_dir = true
component_eq cur_dir cur_dir = true
component_eq parent_dir parent_dir = true
component_eq (normal a) (normal b) = text_eq a b
component_eq _ _ = false

abbrev pub components_eq : List Component → List Component → Bool
components_eq [] [] = true
components_eq (a ∷ xs) (b ∷ ys) = component_eq a b && components_eq xs ys
components_eq _ _ = false

-- `==` on paths.
unfoldable pub path_eq : Bytes → Bytes → Bool
path_eq p q = components_eq (components p) (components q)

abbrev pub ends_in_slash : Bytes → Bool
ends_in_slash [] = false
ends_in_slash (b ∷ []) = b == b'/'
ends_in_slash (b ∷ c ∷ bs) = ends_in_slash (c ∷ bs)

-- `Path::join`.
unfoldable pub join_path : Bytes → Bytes → Bytes
join_path folder name =
    if is_absolute name
    then name
    else if is_empty folder || ends_in_slash folder
    then folder ++ name
    else folder ++ (b'/' ∷ name)

abbrev pub single_normal : List Component → Bool
single_normal (normal name ∷ []) = not (is_empty name)
single_normal _ = false

unfoldable pub validate_basename : Bytes → Result PromptError (Unit {0})
validate_basename path = do
  refuse_if (contains_char 0 path) basename_nul
  refuse_if (not (single_normal (components path))) (not_a_basename path)

unfoldable pub validate_absolute_path : Text → Bytes → Result PromptError (Unit {0})
validate_absolute_path name path =
    refuse_if (not (is_absolute path) || contains_char 0 path) (not_absolute name)

-- `rposition` of a dot, as the bytes before the last dot and the bytes behind it.
abbrev pub last_dot : Bytes → Option (Bytes × Bytes)
last_dot [] = none
last_dot (b ∷ bs) = elim (last_dot bs) [
  | some (before, behind) ↦ some (b ∷ before, behind)
  | none ↦ if b == b'.' then some ([], bs) else none
]

unfoldable pub split_extension : Bytes → Bytes × Option Bytes
split_extension name = elim (last_dot name) [
  | none ↦ (name, none)
  | some (before, behind) ↦
      if is_empty before || is_empty behind then (name, none) else (before, some behind)
]

abbrev pub with_extension : Bytes → Option Bytes → Bytes
with_extension bytes none = bytes
with_extension bytes (some extension) = bytes ++ (b'.' ∷ extension)

-- The name of one turn of the loop in `unique_child`.
abbrev pub suffixed : Bytes × Option Bytes → ℕ → Bytes
suffixed (stem, extension) suffix =
    with_extension (stem ++ (codes "(" ++ (decimal suffix ++ codes ")"))) extension

-- What `symlink_metadata` answers.
pub data Metadata : Type 0 where
  found not_found failed : Metadata

unfoldable pub path_occupied : Metadata → Bool
path_occupied found = true
path_occupied not_found = false
path_occupied failed = true

-- `HashSet<PathBuf>::contains`.
abbrev pub reserves : List Bytes → Bytes → Bool
reserves reserved p = any_of (path_eq p) reserved

abbrev pub u32_max : ℕ
u32_max = 4294967295

abbrev pub or_no_name : Bytes → Option Bytes → Result PromptError Bytes
or_no_name name none = err (no_unique_name name)
or_no_name name (some p) = ok p

-- `symlink_metadata` answers by the state that the file system has during the call.
module _ (symlink_metadata : Bytes → Metadata) where
  unfoldable pub is_free : List Bytes → Bytes → Bool
  is_free reserved p = not (reserves reserved p) && not (path_occupied (symlink_metadata p))

  -- The loop, with the turns that are left and the next suffix.
  unfoldable pub first_free : Bytes → Bytes × Option Bytes → List Bytes → ℕ → ℕ → Option Bytes
  first_free folder parts reserved zero suffix = none
  first_free folder parts reserved (suc turns) suffix =
      elim (is_free reserved (join_path folder (suffixed parts suffix))) [
        | true ↦ some (join_path folder (suffixed parts suffix))
        | false ↦ first_free folder parts reserved turns (suc suffix)
      ]

  unfoldable pub unique_child : Bytes → Bytes → List Bytes → Result PromptError Bytes
  unique_child folder name reserved = do
    validate_basename name
    elim (is_free reserved (join_path folder name)) [
      | true ↦ ok (join_path folder name)
      | false ↦ or_no_name name (first_free folder (split_extension name) reserved u32_max 1)
    ]
