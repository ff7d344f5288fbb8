-- ===== src/Cast/Copy.antt =====
-- cast/copy.rs: `copy_rows`. A slice that does not fit panics, which is `none` here.
use xdg_desktop_portal_aegis.Prelude.{
  ℕ, zero, suc, ◌+◌, ◌*◌, ◌&&◌, Option, none, some, List, ◌++◌, leb, ◌==◌, if◌then◌else◌, length,
  take, drop,
}

abbrev pub Bytes : Type 0
Bytes = List ℕ

-- `&src[start..start + count]`, where it fits.
abbrev pub slice : ℕ → ℕ → Bytes → Bytes
slice start count src = take count (drop start src)

-- `dest[to..to + count].copy_from_slice(&src[from..from + count])`.
unfoldable pub copy_range : ℕ → ℕ → ℕ → Bytes → Bytes → Option Bytes
copy_range to from count src dest =
    if leb (to + count) (length dest) && leb (from + count) (length src)
    then some (take to dest ++ (slice from count src ++ drop (to + count) dest))
    else none

-- The loop over the rows, with the rows that are left and the next one.
unfoldable pub copy_loop : ℕ → ℕ → Bytes → ℕ → ℕ → Bytes → Option Bytes
copy_loop stride row_bytes src zero row dest = some dest
copy_loop stride row_bytes src (suc left) row dest =
    elim (copy_range (row * row_bytes) (row * stride) row_bytes src dest) [
      | none ↦ none
      | some written ↦ copy_loop stride row_bytes src left (suc row) written
    ]

unfoldable pub copy_rows : Bytes → ℕ → Bytes → ℕ → ℕ → Option Bytes
copy_rows src stride dest row_bytes height =
    if stride == row_bytes
    then copy_range 0 0 (height * row_bytes) src dest
    else copy_loop stride row_bytes src height 0 dest
