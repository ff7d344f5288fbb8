-- ===== src/Cast/Meta.antt =====
-- cast/meta.rs: the metadata that is attached to a buffer before it is queued.
use xdg_desktop_portal_aegis.Prelude.{
  ℕ, ℤ, pos, negsuc, zero, suc, Option, none, some, List, [], ◌∷◌, ltb, ◌==◌, if◌then◌else◌, length,
}

pub record Rect : Type 0 where
  pub x : ℤ
  pub y : ℤ
  pub w : ℤ
  pub h : ℤ

-- `spa_meta_region`: a position and an unsigned size.
pub record Region : Type 0 where
  pub x : ℤ
  pub y : ℤ
  pub width : ℕ
  pub height : ℕ

-- A meta block: its type, its data and its size.
pub record MetaBlock : Type 0 where
  pub meta_type : ℕ
  pub data_pointer : ℕ
  pub size : ℕ

-- `spa_buffer_find_meta` on the live array, and the snapshot's lookup: the first block of a type.
abbrev pub find_block : ℕ → List MetaBlock → Option (ℕ × ℕ)
find_block t [] = none
find_block t (b ∷ bs) = if b.meta_type == t then some (b.data_pointer, b.size) else find_block t bs

-- `snapshot_metas` inserts the blocks in their order, so the last one of a type stays.
unfoldable pub snapshot_metas : List MetaBlock → List MetaBlock
snapshot_metas blocks = onto [] blocks
  where
    onto : List MetaBlock → List MetaBlock → List MetaBlock
    onto seen [] = seen
    onto seen (b ∷ bs) = onto (b ∷ seen) bs

abbrev pub or_snapshot : Option (ℕ × ℕ) → Option (ℕ × ℕ) → Option (ℕ × ℕ)
or_snapshot (some m) s = some m
or_snapshot none s = s

unfoldable pub find_meta : ℕ → List MetaBlock → List MetaBlock → Option (ℕ × ℕ)
find_meta t live snapshot = or_snapshot (find_block t live) (find_block t snapshot)

abbrev pub max_damage_regions : ℕ
max_damage_regions = 16

-- `i32::max(0) as u32`.
abbrev pub clamp : ℤ → ℕ
clamp (pos n) = n
clamp (negsuc n) = 0

abbrev pub region_of : Rect → Region
region_of r = record { x = r.x; y = r.y; width = clamp r.w; height = clamp r.h }

abbrev pub zeroed : Region
zeroed = record { x = pos 0; y = pos 0; width = 0; height = 0 }

abbrev pub full_frame : ℕ → ℕ → Rect
full_frame width height = record { x = pos 0; y = pos 0; w = pos width; h = pos height }

abbrev pub reported : List Rect → ℕ → ℕ → List Rect
reported damage width height =
    if ltb max_damage_regions (length damage) then full_frame width height ∷ [] else damage

-- The loop over the regions that the block has room for.
unfoldable pub write_regions : ℕ → List Rect → List Region
write_regions zero rects = []
write_regions (suc room) [] = zeroed ∷ write_regions room []
write_regions (suc room) (r ∷ rects) = region_of r ∷ write_regions room rects

-- The regions of a block with room for `capacity` of them. The width and the height are below
-- `2 ^ 31`, as `frame_len` makes sure, so `as i32` keeps them.
unfoldable pub attach_damage : ℕ → List Rect → ℕ → ℕ → List Region
attach_damage capacity damage width height = write_regions capacity (reported damage width height)
