-- ===== src/Persist/Tests.antt =====
-- A codec for the store file, and the theorems on the store at concrete stores.
use xdg_desktop_portal_aegis.Prelude.{
  ℕ, zero, suc, ◌≡◌, refl, Bool, true, false, ◌&&◌, Option, none, some, ◌⊎◌, List, [], ◌∷◌, ◌++◌,
  Text, codes, text_eq, ltb, if◌then◌else◌, length, take, drop, take_append, drop_append, arith,
}
use xdg_desktop_portal_aegis.Persist.Store.{
  max_store_bytes, StoredSource, desktop, output, StoredSelection, StoredEntry, DiskStore,
  RestoreStore, StoreCodec, load, write_disk, issue, find_token, memory_entries, validate,
  drop_owner, prune,
}
use xdg_desktop_portal_aegis.Persist.Token.{hex_digit, random_token}
use xdg_desktop_portal_aegis.Persist.Bounds.{IsBounded, store-IsBounded}
use xdg_desktop_portal_aegis.Persist.Validate.{Holds, IsFresh, issue-validate, validate_sound}
use xdg_desktop_portal_aegis.Persist.Disk.{file_of, load-write_disk}

put_text : Text → List ℕ → List ℕ
put_text t rest = length t ∷ (t ++ rest)

put_source : StoredSource → List ℕ → List ℕ
put_source desktop rest = 0 ∷ rest
put_source (output c) rest = 1 ∷ put_text c rest

put_entry : StoredEntry → List ℕ → List ℕ
put_entry e rest =
    put_text e.token
      (put_text e.selection.app_id (e.selection.cursor_mode ∷ put_source e.selection.source rest))

put_entries : List StoredEntry → List ℕ
put_entries [] = []
put_entries (e ∷ es) = put_entry e (put_entries es)

put_store : DiskStore → List ℕ
put_store d = d.version ∷ length d.tokens ∷ put_entries d.tokens

get_text : List ℕ → Option (Text × List ℕ)
get_text [] = none
get_text (n ∷ xs) = some (take n xs, drop n xs)

get_source : List ℕ → Option (StoredSource × List ℕ)
get_source [] = none
get_source (zero ∷ xs) = some (desktop, xs)
get_source (suc n ∷ xs) = elim (get_text xs) [
  | none ↦ none
  | some (c, rest) ↦ some (output c, rest)
]

get_mode : Text → Text → List ℕ → Option (StoredEntry × List ℕ)
get_mode token app [] = none
get_mode token app (m ∷ xs) = elim (get_source xs) [
  | none ↦ none
  | some (s, rest) ↦ some (
    record { token = token; selection = record { app_id = app; source = s; cursor_mode = m } },
    rest,
  )
]

get_app : Text → List ℕ → Option (StoredEntry × List ℕ)
get_app token xs = elim (get_text xs) [ none ↦ none | some (app, rest) ↦ get_mode token app rest ]

get_entry : List ℕ → Option (StoredEntry × List ℕ)
get_entry xs = elim (get_text xs) [ none ↦ none | some (token, rest) ↦ get_app token rest ]

get_entries : ℕ → List ℕ → Option (List StoredEntry)
get_entries zero xs = some []
get_entries (suc n) xs = elim (get_entry xs) [
  | none ↦ none
  | some (e, rest) ↦ elim (get_entries n rest) [ none ↦ none | some es ↦ some (e ∷ es) ]
]

get_store : List ℕ → Option DiskStore
get_store [] = none
get_store (v ∷ []) = none
get_store (v ∷ n ∷ xs) = elim (get_entries n xs) [
  | none ↦ none
  | some es ↦ some (record { version = v; tokens = es })
]

get_text-put_text : (t : Text) (rest : List ℕ) → get_text (put_text t rest) ≡ some (t, rest)
unfolding get_text put_text
get_text-put_text t rest = rw (take_append t rest, drop_append t rest)

get_source-put_source :
    (s : StoredSource) (rest : List ℕ) → get_source (put_source s rest) ≡ some (s, rest)
unfolding get_source put_source
get_source-put_source desktop rest = refl
get_source-put_source (output c) rest = ground (arith, get_text-put_text c rest)

get_entry-put_entry :
    (e : StoredEntry) (rest : List ℕ) → get_entry (put_entry e rest) ≡ some (e, rest)
unfolding get_entry put_entry get_app get_mode
get_entry-put_entry e rest = ground (
  arith,
  get_text-put_text e.token
      (put_text e.selection.app_id (e.selection.cursor_mode ∷ put_source e.selection.source rest)),
  get_text-put_text e.selection.app_id
      (e.selection.cursor_mode ∷ put_source e.selection.source rest),
  get_source-put_source e.selection.source rest,
)

get_entries-put_entries :
    (es : List StoredEntry) → get_entries (length es) (put_entries es) ≡ some es
unfolding get_entries put_entries
get_entries-put_entries [] = refl
get_entries-put_entries (e ∷ es) =
    ground (arith, get_entry-put_entry e (put_entries es), get_entries-put_entries es)

get_store-put_store : (d : DiskStore) → get_store (put_store d) ≡ some d
unfolding get_store put_store
get_store-put_store d = ground (arith, get_entries-put_entries d.tokens)

abbrev codec : StoreCodec
codec = record {
  to_vec = put_store;
  from_slice = get_store;
  from_slice-to_vec = get_store-put_store;
}

abbrev app : Text
app = codes "org.obs"

abbrev whole_desktop : StoredSelection
whole_desktop = record { app_id = app; source = desktop; cursor_mode = 1 }

abbrev one_output : StoredSelection
one_output = record { app_id = app; source = output (codes "DP-1"); cursor_mode = 2 }

abbrev entry_a : StoredEntry
entry_a = record { token = codes "aa"; selection = whole_desktop }

abbrev entry_b : StoredEntry
entry_b = record { token = codes "bb"; selection = one_output }

abbrev two_tokens : RestoreStore
two_tokens = record { data_dir = some (codes "/d"); disk = entry_a ∷ entry_b ∷ []; memory = [] }

abbrev only_desktop : StoredSource → Bool
only_desktop desktop = true
only_desktop (output c) = false

token_digits : random_token (0 ∷ 255 ∷ 26 ∷ []) ≡ codes "00ff1a"
unfolding random_token hex_digit
token_digits = refl

store-IsBounded_example :
    ((token owner : Text) (mode : ℕ) (sel : StoredSelection)
      → IsBounded (issue token mode owner sel two_tokens).store)
    × ((owner : Text) → IsBounded (drop_owner owner two_tokens))
    × ((servable : StoredSource → Bool) → IsBounded (prune servable two_tokens).0)
store-IsBounded_example =
    store-IsBounded two_tokens (record { disk_within = omega arith; memory_within = tt })

cc-IsFresh : IsFresh (codes "cc") two_tokens
unfolding find_token memory_entries text_eq
cc-IsFresh = (refl, refl)

cc_issued : (issue (codes "cc") 2 (codes ":1.5") whole_desktop two_tokens).token ≡ some (codes "cc")
unfolding issue
cc_issued = refl

issue-validate_example :
    (codes "cc" ≡ codes "cc")
    × (validate
          (codes "cc")
          app
          only_desktop
          (issue (codes "cc") 2 (codes ":1.5") whole_desktop two_tokens).store
        ≡ (if text_eq app app && true then some (2, whole_desktop) else none))
issue-validate_example =
    issue-validate (codes "cc") (codes ":1.5") app (codes "cc") 2 whole_desktop only_desktop
      two_tokens cc-IsFresh cc_issued

validate_run : validate (codes "aa") app only_desktop two_tokens ≡ some (1, whole_desktop)
unfolding validate find_token memory_entries text_eq
validate_run = refl

validate_sound_example :
    (app ≡ app)
    × (only_desktop desktop ≡ true)
    × ((◌≡◌ {A = ℕ} 1 2 × Holds entry_a (memory_entries two_tokens.memory))
        ⊎ (◌≡◌ {A = ℕ} 1 1 × Holds entry_a two_tokens.disk))
validate_sound_example =
    validate_sound (codes "aa") app only_desktop two_tokens 1 whole_desktop validate_run

write_run : write_disk two_tokens ≡ some (record { version = 1; tokens = two_tokens.disk })
unfolding write_disk
write_run = refl

abbrev written : DiskStore
written = record { version = 1; tokens = two_tokens.disk }

load-write_disk_example :
    load codec (some (codes "/d")) (λ _. some (file_of codec written)) ≡ record {
      data_dir = some (codes "/d");
      disk = if ltb max_store_bytes (length (codec.to_vec written)) then [] else two_tokens.disk;
      memory = [];
    }
load-write_disk_example = load-write_disk codec two_tokens written write_run
