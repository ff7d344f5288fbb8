-- ===== src/Persist/Validate.antt =====
-- persist.rs: what `validate` grants of what `issue` hands out.
use xdg_desktop_portal_aegis.Prelude.{
  ℕ, zero, suc, subst, ◌-◌, ◌≤◌, ◌<◌, ◌≡◌, refl, Bool, true, ◌&&◌, none, some, ◌⊎◌, inl, inr, List,
  [], ◌∷◌, ◌++◌, Text, text_eq, text_eq_iff, text_eq_refl, if◌then◌else◌, Bool-cases, Option-cases,
  length, length-append, drop, unwrap_or, Map, lookup, insert, arith,
}
use xdg_desktop_portal_aegis.Persist.Store.{
  max_disk_tokens, max_memory_tokens_per_owner, StoredSource, StoredSelection, StoredEntry,
  RestoreStore, push_capped, issue, find_token, memory_entries, validate,
}

-- The entry stands among `es` under its token.
pub data Holds (e : StoredEntry) : List StoredEntry → Type 0 where
  here : {es : List StoredEntry} → Holds e (e ∷ es)
  there : {x : StoredEntry} {es : List StoredEntry} → Holds e es → Holds e (x ∷ es)

find_token-Holds :
    (t : Text) (es : List StoredEntry) (e : StoredEntry)
    → find_token t es ≡ some e
    → Holds e es × (e.token ≡ t)
unfolding find_token
find_token-Holds t [] e h = absurd (ground arith)
find_token-Holds t (x ∷ es) e h = elim (Bool-cases (text_eq x.token t)) [
  | inl hit ↦
      let same : x ≡ e = ground arith in
      (subst (λ y. Holds y (x ∷ es)) same here, ground (arith, text_eq_iff x.token t))
  | inr miss ↦ let r = find_token-Holds t es e (ground arith) in (there r.0, r.1)
]

find_token-append :
    (t : Text) (es fs : List StoredEntry)
    → find_token t (es ++ fs) ≡ elim (find_token t es) [ some e ↦ some e | none ↦ find_token t fs ]
unfolding find_token
find_token-append t [] fs = refl
find_token-append t (x ∷ es) fs = ground (arith, find_token-append t es fs)

find_token-drop :
    (t : Text) (n : ℕ) (es : List StoredEntry)
    → find_token t es ≡ none
    → find_token t (drop n es) ≡ none
unfolding find_token
find_token-drop t zero es h = h
find_token-drop t (suc n) [] h = h
find_token-drop t (suc n) (x ∷ es) h = find_token-drop t n es (ground arith)

drop_append :
    (n : ℕ) (es : List StoredEntry) (e : StoredEntry)
    → n ≤ length es
    → drop n (es ++ e ∷ []) ≡ drop n es ++ e ∷ []
drop_append zero es e h = refl
drop_append (suc n) [] e h = absurd (omega arith)
drop_append (suc n) (x ∷ es) e h = drop_append n es e (omega arith)

find_token-newest :
    (e : StoredEntry) (es : List StoredEntry)
    → find_token e.token es ≡ none
    → find_token e.token (es ++ e ∷ []) ≡ some e
unfolding find_token
find_token-newest e [] h = ground (arith, text_eq_refl e.token)
find_token-newest e (x ∷ es) h = ground (arith, find_token-newest e es)

-- The newest entry is never the one that is evicted, as long as the cap is positive.
find_token-push_capped :
    (cap : ℕ) (e : StoredEntry) (es : List StoredEntry)
    → 0 < cap
    → find_token e.token es ≡ none
    → find_token e.token (push_capped cap e es) ≡ some e
unfolding push_capped
find_token-push_capped cap e es pos fresh =
    let pushed : List StoredEntry = es ++ e ∷ [] in
    let n : ℕ = length pushed - cap in
    ground (
      arith,
      length-append es (e ∷ []),
      find_token-newest e es fresh,
      drop_append n es e,
      find_token-newest e (drop n es) (find_token-drop e.token n es fresh),
    )

find_token-memory :
    (t owner : Text) (es : List StoredEntry) (e : StoredEntry) (m : Map (List StoredEntry))
    → find_token t es ≡ some e
    → find_token t (memory_entries m) ≡ none
    → find_token t (memory_entries (insert owner es m)) ≡ some e
unfolding memory_entries insert
find_token-memory t owner es e [] h fresh = ground (arith, find_token-append t es [])
find_token-memory t owner es e ((o, xs) ∷ m) h fresh = ground (
  arith,
  find_token-append t xs (memory_entries m),
  find_token-append t es (memory_entries m),
  find_token-append t xs (memory_entries (insert owner es m)),
  find_token-memory t owner es e m h,
)

find_token-owner :
    (t owner : Text) (m : Map (List StoredEntry))
    → find_token t (memory_entries m) ≡ none
    → find_token t (unwrap_or [] (lookup owner m)) ≡ none
unfolding memory_entries lookup find_token
find_token-owner t owner [] fresh = refl
find_token-owner t owner ((o, xs) ∷ m) fresh =
    ground (arith, find_token-append t xs (memory_entries m), find_token-owner t owner m)

-- No entry of the store has the token.
abbrev pub IsFresh : Text → RestoreStore → Type 0
IsFresh t s = (find_token t (memory_entries s.memory) ≡ none) × (find_token t s.disk ≡ none)

-- A token that `issue` hands out under mode 1 or 2, and that no earlier entry has, grants the
-- selection that it was issued for, under that mode, to the application of that selection and to
-- no other, as long as the selection can be served.
pub issue-validate :
    (token owner app t : Text) (mode : ℕ) (sel : StoredSelection) (servable : StoredSource → Bool)
    (s : RestoreStore)
    → IsFresh token s
    → (issue token mode owner sel s).token ≡ some t
    → (t ≡ token)
      × (validate t app servable (issue token mode owner sel s).store
          ≡ (if text_eq sel.app_id app && servable sel.source then some (mode, sel) else none))
unfolding issue validate
issue-validate token owner app t mode sel servable s fresh h =
    let e : StoredEntry = record { token = token; selection = sel } in
    let old : List StoredEntry = unwrap_or [] (lookup owner s.memory) in
    let kept : List StoredEntry = push_capped max_memory_tokens_per_owner e old in
    let same : t ≡ token = ground arith in
    (
      same,
      rw same (
          ground (
            arith,
            find_token-push_capped max_disk_tokens e s.disk (omega arith) fresh.1,
            find_token-memory token owner kept e s.memory
                (find_token-push_capped max_memory_tokens_per_owner e old (omega arith)
                  (find_token-owner token owner s.memory fresh.0))
                fresh.0,
          )),
    )

-- `validate` grants a selection only to the application that it was issued for, only if it can be
-- served, and only if an entry under that very token holds it: in memory for mode 2, on disk for
-- mode 1.
pub validate_sound :
    (token app : Text) (servable : StoredSource → Bool) (s : RestoreStore) (mode : ℕ)
    (sel : StoredSelection)
    → validate token app servable s ≡ some (mode, sel)
    → (sel.app_id ≡ app)
      × (servable sel.source ≡ true)
      × (((mode ≡ 2) × Holds (record { token = token; selection = sel }) (memory_entries s.memory))
          ⊎ ((mode ≡ 1) × Holds (record { token = token; selection = sel }) s.disk))
unfolding validate
validate_sound token app servable s mode sel h =
    elim (Option-cases (find_token token (memory_entries s.memory))) [
      | inr (e, f) ↦
          let (at, named) = find_token-Holds token (memory_entries s.memory) e f in
          let same : e ≡ record { token = token; selection = sel } = ground (arith, f) in
          (
            ground (arith, f, text_eq_iff e.selection.app_id app),
            ground (arith, f),
            inl (ground (arith, f), subst (λ x. Holds x (memory_entries s.memory)) same at),
          )
      | inl missing ↦ elim (Option-cases (find_token token s.disk)) [
        | inl gone ↦ absurd (ground (arith, missing, gone))
        | inr (e, f) ↦
            let (at, named) = find_token-Holds token s.disk e f in
            let same : e ≡ record { token = token; selection = sel } = ground (arith, missing, f) in
            (
              ground (arith, missing, f, text_eq_iff e.selection.app_id app),
              ground (arith, missing, f),
              inr (ground (arith, missing, f), subst (λ x. Holds x s.disk) same at),
            )
      ]
    ]
