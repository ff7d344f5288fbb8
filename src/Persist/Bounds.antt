-- ===== src/Persist/Bounds.antt =====
-- persist.rs: the caps on retained tokens.
use xdg_desktop_portal_aegis.Prelude.{
  ℕ, ◌-◌, ◌≤◌, Bool, List, [], ◌∷◌, ◌++◌, Text, length, length-append, length-drop,
  length-retain-le, unwrap_or, lookup, AllValues, AllValues-insert, AllValues-erase, arith,
}
use xdg_desktop_portal_aegis.Persist.Store.{
  max_disk_tokens, max_memory_tokens_per_owner, StoredSource, StoredSelection, StoredEntry,
  RestoreStore, push_capped, issue, drop_owner, prune,
}

abbrev pub IsCapped : List StoredEntry → Type 0
IsCapped es = length es ≤ max_memory_tokens_per_owner

pub record IsBounded (s : RestoreStore) : Type 0 where
  pub disk_within : length s.disk ≤ max_disk_tokens
  pub memory_within : AllValues IsCapped s.memory

pub length-push_capped :
    (cap : ℕ) (e : StoredEntry) (es : List StoredEntry) → length (push_capped cap e es) ≤ cap
unfolding push_capped
length-push_capped cap e es =
    ground
      (arith, length-append es (e ∷ []), length-drop (length (es ++ e ∷ []) - cap) (es ++ e ∷ []))

issue-IsBounded :
    (token owner : Text) (mode : ℕ) (sel : StoredSelection) (s : RestoreStore)
    → IsBounded s
    → IsBounded (issue token mode owner sel s).store
unfolding issue
issue-IsBounded token owner mode sel s b =
    let e : StoredEntry = record { token = token; selection = sel } in
    let old : List StoredEntry = unwrap_or [] (lookup owner s.memory) in
    ground (
      arith,
      length-push_capped max_disk_tokens e s.disk,
      AllValues-insert IsCapped owner (push_capped max_memory_tokens_per_owner e old) s.memory
          (length-push_capped max_memory_tokens_per_owner e old) b.memory_within,
    )

-- Issuing, pruning and dropping an owner keep at most 64 tokens on disk and at most 16 tokens in
-- memory for each owner.
pub store-IsBounded :
    (s : RestoreStore)
    → IsBounded s
    → ((token owner : Text) (mode : ℕ) (sel : StoredSelection)
        → IsBounded (issue token mode owner sel s).store)
      × ((owner : Text) → IsBounded (drop_owner owner s))
      × ((servable : StoredSource → Bool) → IsBounded (prune servable s).0)
unfolding drop_owner prune
store-IsBounded s b = (
  λ token owner mode sel. issue-IsBounded token owner mode sel s b,
  λ owner. record {
    disk_within = b.disk_within;
    memory_within = AllValues-erase IsCapped owner s.memory b.memory_within;
  },
  λ servable. record {
    disk_within =
        omega (arith, length-retain-le (λ (e : StoredEntry). servable e.selection.source) s.disk);
    memory_within = b.memory_within;
  },
)
