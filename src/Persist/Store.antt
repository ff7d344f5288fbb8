-- ===== src/Persist/Store.antt =====
-- persist.rs: the data and the methods of `RestoreStore`. A method that writes the store file
-- returns the file that it asks for, since a failed write is only logged.
use xdg_desktop_portal_aegis.Prelude.{
  ℕ, ◌-◌, ◌≡◌, Bool, not, ◌&&◌, ◌||◌, Option, none, some, List, [], ◌∷◌, ◌++◌, Text, text_eq, ltb,
  ◌==◌, if◌then◌else◌, is_none, is_empty, unwrap_or, length, drop, retain, Map, lookup, insert,
  erase,
}

abbrev pub max_store_bytes : ℕ
max_store_bytes = 1048576

abbrev pub max_disk_tokens : ℕ
max_disk_tokens = 64

abbrev pub max_memory_tokens_per_owner : ℕ
max_memory_tokens_per_owner = 16

abbrev pub store_version : ℕ
store_version = 1

pub data StoredSource : Type 0 where
  desktop : StoredSource
  output : Text → StoredSource

pub record StoredSelection : Type 0 where
  pub app_id : Text
  pub source : StoredSource
  pub cursor_mode : ℕ

pub record StoredEntry : Type 0 where
  pub token : Text
  pub selection : StoredSelection

pub record DiskStore : Type 0 where
  pub version : ℕ
  pub tokens : List StoredEntry

pub record RestoreStore : Type 0 where
  pub data_dir : Option Text
  pub disk : List StoredEntry
  pub memory : Map (List StoredEntry)

-- A file of the data directory.
pub record StoreFile : Type 0 where
  pub is_file : Bool
  pub bytes : List ℕ

-- `serde_json` on a `DiskStore`.
pub record StoreCodec : Type 0 where
  pub to_vec : DiskStore → List ℕ
  pub from_slice : List ℕ → Option DiskStore
  pub from_slice-to_vec : (s : DiskStore) → from_slice (to_vec s) ≡ some s

-- `None` of the file is a file that cannot be read.
unfoldable pub read_store : StoreCodec → Option StoreFile → Option (List StoredEntry)
read_store c none = none
read_store c (some f) =
    if not f.is_file || ltb max_store_bytes (length f.bytes)
    then none
    else elim (c.from_slice f.bytes) [
      | none ↦ none
      | some s ↦ if not (s.version == store_version) then none else some s.tokens
    ]

-- `load`, where `file` is what stands in the directory.
unfoldable pub load : StoreCodec → Option Text → (Text → Option StoreFile) → RestoreStore
load c data_dir file = record {
  data_dir = data_dir;
  disk = elim data_dir [ none ↦ [] | some dir ↦ unwrap_or [] (read_store c (file dir)) ];
  memory = [];
}

-- The file that `write_disk` asks for: none without a data directory.
unfoldable pub write_disk : RestoreStore → Option DiskStore
write_disk s = elim s.data_dir [
  | none ↦ none
  | some dir ↦ some (record { version = store_version; tokens = s.disk })
]

-- Push an entry, then drain the oldest ones above the cap.
unfoldable pub push_capped : ℕ → StoredEntry → List StoredEntry → List StoredEntry
push_capped cap e es =
    let pushed = es ++ e ∷ [] in
    if ltb cap (length pushed) then drop (length pushed - cap) pushed else pushed

pub record Issued : Type 0 where
  pub store : RestoreStore
  pub token : Option Text
  pub written : Option DiskStore

abbrev issue_disk : Text → StoredEntry → RestoreStore → Issued
issue_disk token e s =
    let s' : RestoreStore = record s { disk = push_capped max_disk_tokens e s.disk } in
    if is_none s.data_dir
    then record { store = s; token = none; written = none }
    else record { store = s'; token = some token; written = write_disk s' }

abbrev issue_memory : Text → Text → StoredEntry → RestoreStore → Issued
issue_memory token owner e s =
    if is_empty owner then record { store = s; token = none; written = none } else record {
      store = record s {
        memory =
            insert owner
              (push_capped max_memory_tokens_per_owner e (unwrap_or [] (lookup owner s.memory)))
              s.memory;
      };
      token = some token;
      written = none;
    }

-- `issue`, with the token that the random source gave.
unfoldable pub issue : Text → ℕ → Text → StoredSelection → RestoreStore → Issued
unfolding write_disk
issue token mode owner selection s =
    let e : StoredEntry = record { token = token; selection = selection } in
    if mode == 1
    then issue_disk token e s
    else if mode == 2
    then issue_memory token owner e s
    else record { store = s; token = none; written = none }

unfoldable pub find_token : Text → List StoredEntry → Option StoredEntry
find_token t [] = none
find_token t (e ∷ es) = if text_eq e.token t then some e else find_token t es

-- `self.memory.values().flatten()`.
unfoldable pub memory_entries : Map (List StoredEntry) → List StoredEntry
memory_entries [] = []
memory_entries ((o, es) ∷ m) = es ++ memory_entries m

-- `(cond).then(|| (mode, selection))`.
abbrev pub granted : ℕ → Text → (StoredSource → Bool) → StoredEntry → Option (ℕ × StoredSelection)
granted mode app servable e =
    if text_eq e.selection.app_id app && servable e.selection.source
    then some (mode, e.selection)
    else none

unfoldable pub validate :
    Text → Text → (StoredSource → Bool) → RestoreStore → Option (ℕ × StoredSelection)
validate token app servable s = elim (find_token token (memory_entries s.memory)) [
  | some e ↦ granted 2 app servable e
  | none ↦ elim (find_token token s.disk) [ some e ↦ granted 1 app servable e | none ↦ none ]
]

unfoldable pub drop_owner : Text → RestoreStore → RestoreStore
drop_owner owner s = record s { memory = erase owner s.memory }

-- The pruned store, and the file to write if something was removed.
unfoldable pub prune : (StoredSource → Bool) → RestoreStore → RestoreStore × Option DiskStore
unfolding write_disk
prune servable s =
    let s' : RestoreStore = record s { disk = retain (λ e. servable e.selection.source) s.disk } in
    (s', if not (length s'.disk == length s.disk) then write_disk s' else none)
