-- ===== src/Prelude/Keys.antt =====
-- Maps that hold each key once, and sums over their values.
use Prim.Native.Nat.{ℕ, ◌+◌}
use mathlib.Core.Path.{◌≡◌, refl, sym, ap}
use mathlib.Core.Logic.{◌≢◌, inl, inr}
use mathlib.Core.List.{List, [], ◌∷◌}
use mathlib.Core.Option.{none, some}
use native.Mathlib.Omega.{arith}
use xdg_desktop_portal_aegis.Prelude.Tests.{if◌then◌else◌, Bool-cases}
use xdg_desktop_portal_aegis.Prelude.Texts.{
  Text, text_eq, text_eq_iff, text_eq_refl, Absent, Distinct,
}
use xdg_desktop_portal_aegis.Prelude.Maps.{Map, lookup, insert, erase}

module _ {ℓ} {V : Type ℓ} where
  abbrev pub keys : Map V → List Text
  keys [] = []
  keys ((k, v) ∷ m) = k ∷ keys m

  -- The sum of a weight of the values.
  unfoldable pub total : (V → ℕ) → Map V → ℕ
  total w [] = 0
  total w ((k, v) ∷ m) = w v + total w m

  pub Absent-lookup : (k : Text) (m : Map V) → Absent k (keys m) → lookup k m ≡ none
  unfolding lookup
  Absent-lookup k [] a = refl
  Absent-lookup k ((j, v) ∷ m) (ne, a) = elim (Bool-cases (text_eq j k)) [
    | inl e ↦ absurd (ne ((text_eq_iff j k).0 e))
    | inr e ↦ ground (arith, e, Absent-lookup k m a)
  ]

  pub erase_absent : (k : Text) (m : Map V) → lookup k m ≡ none → erase k m ≡ m
  unfolding lookup erase
  erase_absent k [] h = refl
  erase_absent k ((j, v) ∷ m) h = ground (arith, h, erase_absent k m)

  pub erase-insert : (k : Text) (v : V) (m : Map V) → lookup k m ≡ none → erase k (insert k v m) ≡ m
  unfolding lookup insert erase
  erase-insert k v [] h = ground (arith, text_eq_refl k)
  erase-insert k v ((j, w) ∷ m) h = ground (arith, h, erase-insert k v m)

  -- What is inserted at a key and erased again leaves what erasing alone leaves.
  pub erase-insert_same : (k : Text) (v : V) (m : Map V) → erase k (insert k v m) ≡ erase k m
  unfolding insert erase
  erase-insert_same k v [] = ground (arith, text_eq_refl k)
  erase-insert_same k v ((j, w) ∷ m) = ground (arith, text_eq_refl k, erase-insert_same k v m)

  Absent-insert :
      (j k : Text) (v : V) (m : Map V) → Absent j (keys m) → k ≢ j → Absent j (keys (insert k v m))
  unfolding insert
  Absent-insert j k v [] a ne = (ne, tt)
  Absent-insert j k v ((i, w) ∷ m) (here, a) ne =
      elim (Bool-cases (text_eq i k))
        as (λ _. Absent j (keys (if text_eq i k then (k, v) ∷ m else (i, w) ∷ insert k v m))) [
          | inl e ↦ ground (arith, e, ne, a)
          | inr e ↦ ground (arith, e, here, Absent-insert j k v m a ne)
        ]

  pub Distinct-insert :
      (k : Text) (v : V) (m : Map V)
      → lookup k m ≡ none
      → Distinct (keys m)
      → Distinct (keys (insert k v m))
  unfolding lookup insert
  Distinct-insert k v [] h d = (tt, tt)
  Distinct-insert k v ((i, w) ∷ m) h (a, d) = elim (Bool-cases (text_eq i k)) [
    | inl e ↦ absurd (ground (arith, h, e))
    | inr e ↦
        let rest = Distinct-insert k v m (ground (arith, h, e)) d in
        let away =
          Absent-insert i k v m a (λ same. ground (arith, e, (text_eq_iff i k).1 (sym same))) in
        ground (arith, e, rest, away)
  ]

  Absent-erase : (j k : Text) (m : Map V) → Absent j (keys m) → Absent j (keys (erase k m))
  unfolding erase
  Absent-erase j k [] a = tt
  Absent-erase j k ((i, w) ∷ m) (here, a) = ground (arith, here, Absent-erase j k m a)

  pub Distinct-erase : (k : Text) (m : Map V) → Distinct (keys m) → Distinct (keys (erase k m))
  unfolding erase
  Distinct-erase k [] d = tt
  Distinct-erase k ((i, w) ∷ m) (a, d) = ground (arith, Distinct-erase k m d, Absent-erase i k m a)

  pub total-insert :
      (w : V → ℕ) (k : Text) (v : V) (m : Map V)
      → lookup k m ≡ none
      → total w (insert k v m) ≡ total w m + w v
  unfolding lookup insert total
  total-insert w k v [] h = ground arith
  total-insert w k v ((i, u) ∷ m) h = ground (arith, total-insert w k v m)

  pub total-erase :
      (w : V → ℕ) (k : Text) (v : V) (m : Map V)
      → Distinct (keys m)
      → lookup k m ≡ some v
      → total w (erase k m) + w v ≡ total w m
  unfolding lookup erase total
  total-erase w k v [] d h = absurd (ground (arith, h))
  total-erase w k v ((i, u) ∷ m) (a, d) h = elim (Bool-cases (text_eq i k)) [
    | inl e ↦
        let same : i ≡ k = (text_eq_iff i k).0 e in
        let gone : erase i m ≡ m = erase_absent i m (Absent-lookup i m a) in
        ground (arith, h, e, gone, ap (λ x. erase x m) same)
    | inr e ↦ ground (arith, h, e, total-erase w k v m d)
  ]
