-- ===== src/Prelude/Maps.antt =====
-- `HashMap<String, V>` as an association list. `insert` replaces the value of a key that is there,
-- so the maps that the code builds hold each key once. The order is the order of insertion, which
-- `HashMap` does not promise: statements do not depend on it unless their comments say so.
use Prim.Native.Nat.{ℕ, suc, ◌+◌, ◌≤◌}
use mathlib.Core.Path.{◌≡◌, refl}
use mathlib.Core.Bool.{Bool}
use mathlib.Core.List.{List, [], ◌∷◌}
use mathlib.Core.Option
use mathlib.Core.Option.{Option, none, some}
use native.Mathlib.Omega.{arith}
use xdg_desktop_portal_aegis.Prelude.Tests.{if◌then◌else◌, is_some}
use xdg_desktop_portal_aegis.Prelude.Lists.{length, All}
use xdg_desktop_portal_aegis.Prelude.Texts.{Text, text_eq, text_eq_iff}

abbrev pub Map {ℓ} : Type ℓ → Type ℓ
Map V = List (Text × V)

module _ {ℓ} {V : Type ℓ} where
  -- `HashMap::get`.
  unfoldable pub lookup : Text → Map V → Option V
  lookup k [] = none
  lookup k ((j, v) ∷ m) = if text_eq j k then some v else lookup k m

  -- `HashMap::insert`.
  unfoldable pub insert : Text → V → Map V → Map V
  insert k v [] = (k, v) ∷ []
  insert k v ((j, w) ∷ m) = if text_eq j k then (k, v) ∷ m else (j, w) ∷ insert k v m

  -- `HashMap::remove`.
  unfoldable pub erase : Text → Map V → Map V
  erase k [] = []
  erase k ((j, w) ∷ m) = if text_eq j k then erase k m else (j, w) ∷ erase k m

  -- A write through `HashMap::get_mut`.
  unfoldable pub adjust : Text → (V → V) → Map V → Map V
  adjust k f [] = []
  adjust k f ((j, w) ∷ m) = if text_eq j k then (j, f w) ∷ m else (j, w) ∷ adjust k f m

  -- `values().filter(p).count()`.
  unfoldable pub count_if : (V → Bool) → Map V → ℕ
  count_if p [] = 0
  count_if p ((j, w) ∷ m) = (if p w then 1 else 0) + count_if p m

  abbrev pub contains_key : Text → Map V → Bool
  contains_key k m = is_some (lookup k m)

  pub lookup-insert :
      (k asked : Text) (v : V) (m : Map V)
      → lookup asked (insert k v m) ≡ (if text_eq k asked then some v else lookup asked m)
  unfolding lookup insert
  lookup-insert k asked v ((i, w) ∷ m) =
      ground (
        arith,
        text_eq_iff k asked,
        text_eq_iff i k,
        text_eq_iff i asked,
        lookup-insert k asked v m,
      )
  lookup-insert k asked v [] = refl

  pub lookup-erase :
      (k j : Text) (m : Map V) → lookup j (erase k m) ≡ (if text_eq k j then none else lookup j m)
  unfolding lookup erase
  lookup-erase k j [] = ground arith
  lookup-erase k j ((i, w) ∷ m) =
      ground (arith, text_eq_iff k j, text_eq_iff i k, text_eq_iff i j, lookup-erase k j m)

  pub lookup-adjust :
      (k j : Text) (f : V → V) (m : Map V)
      → lookup j (adjust k f m) ≡ (if text_eq k j then Option.map f (lookup j m) else lookup j m)
  unfolding lookup adjust
  lookup-adjust k j f [] = ground arith
  lookup-adjust k j f ((i, w) ∷ m) =
      ground (arith, text_eq_iff k j, text_eq_iff i k, text_eq_iff i j, lookup-adjust k j f m)

  pub length-insert :
      (k : Text) (v : V) (m : Map V)
      → length (insert k v m) ≡ (if contains_key k m then length m else suc (length m))
  unfolding lookup insert
  length-insert k v [] = refl
  length-insert k v ((i, w) ∷ m) = ground (arith, length-insert k v m)

  pub length-erase-le : (k : Text) (m : Map V) → length (erase k m) ≤ length m
  unfolding erase
  length-erase-le k [] = omega arith
  length-erase-le k ((i, w) ∷ m) = ground (arith, length-erase-le k m)

  pub length-adjust : (k : Text) (f : V → V) (m : Map V) → length (adjust k f m) ≡ length m
  unfolding adjust
  length-adjust k f [] = refl
  length-adjust k f ((i, w) ∷ m) = ground (arith, length-adjust k f m)

  -- Inserting at a new key adds the value's own share to a count.
  pub count_if-insert :
      (p : V → Bool) (k : Text) (v : V) (m : Map V)
      → lookup k m ≡ none
      → count_if p (insert k v m) ≡ count_if p m + (if p v then 1 else 0)
  unfolding lookup insert count_if
  count_if-insert p k v [] h = ground arith
  count_if-insert p k v ((i, w) ∷ m) h = ground (arith, count_if-insert p k v m)

  pub count_if-erase-le :
      (p : V → Bool) (k : Text) (m : Map V) → count_if p (erase k m) ≤ count_if p m
  unfolding erase count_if
  count_if-erase-le p k [] = omega arith
  count_if-erase-le p k ((i, w) ∷ m) = ground (arith, count_if-erase-le p k m)

  pub count_if-adjust :
      (p : V → Bool) (k : Text) (f : V → V) (v : V) (m : Map V)
      → lookup k m ≡ some v
      → count_if p (adjust k f m) + (if p v then 1 else 0)
        ≡ count_if p m + (if p (f v) then 1 else 0)
  unfolding lookup adjust count_if
  count_if-adjust p k f v [] h = ground arith
  count_if-adjust p k f v ((i, w) ∷ m) h = ground (arith, count_if-adjust p k f v m)

  pub adjust_missing : (k : Text) (f : V → V) (m : Map V) → lookup k m ≡ none → adjust k f m ≡ m
  unfolding lookup adjust
  adjust_missing k f [] h = refl
  adjust_missing k f ((i, w) ∷ m) h = ground (arith, adjust_missing k f m)

  -- Every value of the map satisfies `P`.
  abbrev pub AllValues {κ} : (V → Type κ) → Map V → Type κ
  AllValues P = All (λ e. P e.1)

  pub AllValues-insert :
      (P : V → Type 0) (k : Text) (v : V) (m : Map V)
      → P v
      → AllValues P m
      → AllValues P (insert k v m)
  unfolding insert
  AllValues-insert P k v [] h a = (h, tt)
  AllValues-insert P k v ((i, w) ∷ m) h a = ground (arith, AllValues-insert P k v m h a.1)

  pub AllValues-erase :
      (P : V → Type 0) (k : Text) (m : Map V) → AllValues P m → AllValues P (erase k m)
  unfolding erase
  AllValues-erase P k [] a = a
  AllValues-erase P k ((i, w) ∷ m) a = ground (arith, AllValues-erase P k m a.1)

  pub AllValues-adjust :
      (P : V → Type 0) (k : Text) (f : V → V) (v : V) (m : Map V)
      → lookup k m ≡ some v
      → P (f v)
      → AllValues P m
      → AllValues P (adjust k f m)
  unfolding lookup adjust
  AllValues-adjust P k f v [] e h a = a
  AllValues-adjust P k f v ((i, w) ∷ m) e h a = ground (arith, AllValues-adjust P k f v m)

  pub AllValues-lookup :
      (P : V → Type 0) (k : Text) (v : V) (m : Map V) → AllValues P m → lookup k m ≡ some v → P v
  unfolding lookup
  AllValues-lookup P k v [] a h = absurd (ground arith)
  AllValues-lookup P k v ((i, w) ∷ m) a h = ground (arith, AllValues-lookup P k v m a.1)

pub ruleset map_laws = (lookup-insert, lookup-erase, lookup-adjust)
