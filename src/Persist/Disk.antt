-- ===== src/Persist/Disk.antt =====
-- persist.rs: the store file, its reading back, and the lazy pruning.
use xdg_desktop_portal_aegis.Prelude.{
  ◌<◌, ◌≡◌, ◌≢◌, ◌↔◌, refl, ap, Bool, true, false, none, some, ◌⊎◌, inl, inr, List, [], ◌∷◌, Text,
  ltb, if◌then◌else◌, Option-cases, length, length-retain-le, retain, All, arith,
}
use xdg_desktop_portal_aegis.Persist.Store.{
  max_store_bytes, store_version, StoredSource, StoredEntry, DiskStore, RestoreStore, StoreFile,
  StoreCodec, read_store, load, write_disk, prune,
}

-- The file that holds the codec's text of a store.
abbrev pub file_of : StoreCodec → DiskStore → StoreFile
file_of c d = record { is_file = true; bytes = c.to_vec d }

-- What `write_disk` writes, `load` reads back, except that it reads a file of more than 1 MiB as
-- an empty store: the disk tokens and the data directory come back, the memory tokens do not.
pub load-write_disk :
    (c : StoreCodec) (s : RestoreStore) (d : DiskStore)
    → write_disk s ≡ some d
    → load c s.data_dir (λ _. some (file_of c d)) ≡ record {
      data_dir = s.data_dir;
      disk = if ltb max_store_bytes (length (c.to_vec d)) then [] else s.disk;
      memory = [];
    }
unfolding load read_store write_disk
load-write_disk c s d h = elim (Option-cases s.data_dir) [
  | inl e ↦ absurd (ground (arith, e))
  | inr (dir, e) ↦ ground (arith, e, c.from_slice-to_vec d)
]

-- A file that is not a regular file, is over 1 MiB, is not understood, or has another version
-- loads as an empty store.
pub load_refused :
    (c : StoreCodec) (dir : Text) (f : StoreFile)
    → (f.is_file ≡ false)
      ⊎ ((max_store_bytes < length f.bytes)
          ⊎ ((c.from_slice f.bytes ≡ none)
              ⊎ ((d : DiskStore) × (c.from_slice f.bytes ≡ some d) × (d.version ≢ store_version))))
    → load c (some dir) (λ _. some f) ≡ record { data_dir = some dir; disk = []; memory = [] }
unfolding load read_store
load_refused c dir f (inl h) = ground arith
load_refused c dir f (inr (inl h)) = ground arith
load_refused c dir f (inr (inr (inl h))) = ground arith
load_refused c dir f (inr (inr (inr (d, h, v)))) = ground arith

retain-All : (p : StoredEntry → Bool) (es : List StoredEntry) → All (λ e. p e ≡ true) (retain p es)
retain-All p [] = tt
retain-All p (e ∷ es) = ground (arith, retain-All p es)

length-retain-eq :
    (p : StoredEntry → Bool) (es : List StoredEntry)
    → length (retain p es) ≡ length es
    → retain p es ≡ es
length-retain-eq p [] h = refl
length-retain-eq p (e ∷ es) h = ground (arith, length-retain-le p es, length-retain-eq p es)

-- After `prune` every disk token can be served and the memory tokens are as they were. The store
-- file is written exactly if the pruned list differs from the old one and there is a data
-- directory, and it then holds the pruned list.
pub prune_servable :
    (servable : StoredSource → Bool) (s : RestoreStore)
    → All (λ e. servable e.selection.source ≡ true) (prune servable s).0.disk
      × ((prune servable s).0.memory ≡ s.memory)
      × ((d : DiskStore)
          → ((prune servable s).1 ≡ some d) ↔ (
              ((prune servable s).0.disk ≢ s.disk)
              × (s.data_dir ≢ none)
              × (d ≡ record { version = store_version; tokens = (prune servable s).0.disk })))
unfolding prune write_disk
prune_servable servable s =
    let p : StoredEntry → Bool = λ e. servable e.selection.source in
    (
      retain-All p s.disk,
      refl,
      λ d. (
        λ h. (λ same. ground (arith, ap length same), λ gone. ground arith, ground arith),
        λ (changed, there, e). ground (arith, length-retain-eq p s.disk),
      ),
    )
