-- ===== src/Cast/Pictures.antt =====
-- cast/copy.rs: what a copy into the pool puts into a buffer.
use xdg_desktop_portal_aegis.Prelude.{
  ℕ, suc, ◌*◌, ◌≤◌, ◌≡◌, refl, inl, inr, true, false, Option, none, some, List, ◌∷◌, ◌++◌, length,
  drop, ltb, Bool-cases, arith,
}
use xdg_desktop_portal_aegis.Cast.Copy.{Bytes}
use xdg_desktop_portal_aegis.Cast.CopyLaws.{rows_of, copy_rows-rows_of}
use xdg_desktop_portal_aegis.Cast.Transport.{StreamData}
use xdg_desktop_portal_aegis.Cast.Publish.{
  FileView, unstatable, unmappable, mapped, Copied, count_drop, queue_copy, stash, into_buffer,
  with_buffer, too_small, copy_into_pool, take_buffer,
}

-- Nothing goes out, or one buffer does, which begins with the file's rows.
pub data IsCopy (memory : ℕ → Option Bytes) (stride row_bytes height : ℕ) (view : FileView)
    (d : StreamData) (c : Copied) : Type 0 where
  kept_back :
      c.picture ≡ none → c.after.queued ≡ d.queued → IsCopy memory stride row_bytes height view d c
  sent_out :
      (raw : ℕ) (src dest : Bytes)
      → view ≡ mapped src
      → memory raw ≡ some dest
      → c.picture ≡ some (rows_of stride row_bytes src height 0 ++ drop (height * row_bytes) dest)
      → c.after.queued ≡ raw ∷ d.queued
      → IsCopy memory stride row_bytes height view d c

module _ (memory : ℕ → Option Bytes) where
  into_buffer-IsCopy :
      (src : Bytes) (stride row_bytes height raw : ℕ) (free : List ℕ) (d : StreamData)
      (o : Option Bytes)
      → 1 ≤ height
      → too_small (length src) stride row_bytes height ≡ false
      → memory raw ≡ o
      → (c : Copied) × (into_buffer memory src stride row_bytes height raw free d o ≡ some c)
        × IsCopy memory stride row_bytes height (mapped src) d c
  into_buffer-IsCopy src stride row_bytes height raw free d none some_row room m =
      (_, refl, kept_back refl refl)
  into_buffer-IsCopy src stride row_bytes height raw free d (some dest) some_row room m =
      elim (Bool-cases (ltb (length dest) (height * row_bytes))) [
        | inl e ↦ (
          record { taken = true; picture = none; free = free; after = count_drop (stash raw d) },
          ground (arith, e),
          kept_back refl refl,
        )
        | inr e ↦
            let picture = rows_of stride row_bytes src height 0 ++ drop (height * row_bytes) dest in
            let written =
              copy_rows-rows_of src dest stride row_bytes height some_row (ground (arith, e))
                (ground (arith, room)) in
            (
              record {
                taken = true;
                picture = some picture;
                free = free;
                after = queue_copy raw d;
              },
              ground (arith, e, written),
              sent_out raw src dest refl m refl refl,
            )
      ]

  with_buffer-IsCopy :
      (src : Bytes) (stride row_bytes height : ℕ) (free : List ℕ) (d : StreamData)
      (o : Option (ℕ × List ℕ × List ℕ))
      → 1 ≤ height
      → too_small (length src) stride row_bytes height ≡ false
      → (c : Copied) × (with_buffer memory src stride row_bytes height free d o ≡ some c)
        × IsCopy memory stride row_bytes height (mapped src) d c
  with_buffer-IsCopy src stride row_bytes height free d none some_row room =
      (record { taken = false; picture = none; free = free; after = d }, refl, kept_back refl refl)
  with_buffer-IsCopy src stride row_bytes height free d (some (raw, pool, rest)) some_row room =
      let (c, e, copy) =
        into_buffer-IsCopy src stride row_bytes height raw rest (record d { pool = pool })
          (memory raw) some_row room refl in
      (c, e, with_pool c copy)
    where
      with_pool :
          (c : Copied)
          → IsCopy memory stride row_bytes height (mapped src) (record d { pool = pool }) c
          → IsCopy memory stride row_bytes height (mapped src) d c
      with_pool c (kept_back p q) = kept_back p q
      with_pool c (sent_out raw src dest v m p q) = sent_out raw src dest v m p q

  -- `copy_into_pool` always returns, whatever the file, its stride and the buffers are: no slice is
  -- out of bounds. Either nothing goes out, or one buffer does, and it begins with the rows of the
  -- file, each taken from its stride, and ends as the buffer did.
  pub copy_into_pool_picture :
      (view : FileView) (stride width height : ℕ) (free : List ℕ) (d : StreamData)
      → 1 ≤ height
      → (c : Copied) × (copy_into_pool memory view stride width height free d ≡ some c)
        × IsCopy memory stride (width * 4) height view d c
  unfolding copy_into_pool
  copy_into_pool_picture unstatable stride width height free d some_row =
      (_, refl, kept_back refl refl)
  copy_into_pool_picture (unmappable len) stride width height free d some_row =
      elim (Bool-cases (too_small len stride (width * 4) height)) [
        | inl e ↦ (
          record { taken = true; picture = none; free = free; after = count_drop d },
          ground (arith, e),
          kept_back refl refl,
        )
        | inr e ↦ (
          record {
            taken = true;
            picture = none;
            free = free;
            after = record d { dropped_frames = suc d.dropped_frames; warned_unmappable = true };
          },
          ground (arith, e),
          kept_back refl refl,
        )
      ]
  copy_into_pool_picture (mapped src) stride width height free d some_row =
      elim (Bool-cases (too_small (length src) stride (width * 4) height)) [
        | inl e ↦ (
          record { taken = true; picture = none; free = free; after = count_drop d },
          ground (arith, e),
          kept_back refl refl,
        )
        | inr e ↦
            let (c, out, copy) =
              with_buffer-IsCopy src stride (width * 4) height free d (take_buffer d.pool free)
                some_row e in
            (c, ground (arith, e, out), copy)
      ]
