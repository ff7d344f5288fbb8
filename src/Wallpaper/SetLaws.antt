-- ===== src/Wallpaper/SetLaws.antt =====
-- wallpaper.rs: what a request has done to the staged files when it is answered.
use xdg_desktop_portal_aegis.Prelude.{
  ℕ, zero, suc, ◌≡◌, refl, sym, ap, ◌∙◌, inl, inr, Bool-cases, is_some, ◌&&◌, Bool, true, false,
  not, ◌||◌, Option, none, some, [], ◌∷◌, Text, text_eq, text_eq_iff, retain, if◌then◌else◌, Map,
  lookup, insert, erase, lookup-insert, lookup-erase, Result, ok, err, arith,
}
use xdg_desktop_portal_aegis.Prompter.Paths.{Bytes}
use xdg_desktop_portal_aegis.Wallpaper.Request.{read_image}
use xdg_desktop_portal_aegis.Wallpaper.Set.{
  Directory, Staging, not_renamed, not_synced, staged, Surroundings, Outcome, leave, PreviewError,
  consent, prune_staging, settle_staged, stage_image, with_consent, with_image, run_set_staged,
}

lookup-retain :
    {V : Type 0} (p : Text → Bool) (m : Map V) (k : Text)
    → lookup k (retain (λ f. p f.0) m) ≡ (if p k then lookup k m else none)
unfolding lookup
lookup-retain p [] k = ground arith
lookup-retain p ((j, v) ∷ m) k = elim (Bool-cases (text_eq j k)) [
  | inl e ↦ ground (arith, e, ap p ((text_eq_iff j k).0 e), lookup-retain p m k)
  | inr e ↦ ground (arith, e, lookup-retain p m k)
]

-- What an answer tells of a request, and of the staged file of another name `k`.
abbrev pub IsAsTold : Surroundings → Bool → Text → Directory → Text → ℕ → Outcome → Type 0
IsAsTold e show_preview name d k zero out =
    (e.closed_before ≡ false)
    × (consent show_preview e.prompted ≡ ok true)
    × (e.closed_after ≡ false)
    × (e.applied ≡ true)
    × (out.sent ≡ some name)
    × (is_some (read_image e.file) ≡ true)
    × (lookup name out.directory ≡ read_image e.file)
    × (lookup k out.directory ≡ (if e.listed && e.removable k then none else lookup k d))
IsAsTold e show_preview name d k (suc code) out = lookup k out.directory ≡ lookup k d

text_eq_refl : (t : Text) → text_eq t t ≡ true
text_eq_refl t = (text_eq_iff t t).1 refl

module _ (e : Surroundings) (show_preview : Bool) (name : Text) (d : Directory) (k : Text)
    (other : text_eq name k ≡ false) where
  pruned_other :
      (image : Bytes)
      → lookup k (prune_staging e.listed e.removable name (insert name image d))
        ≡ (if e.listed && e.removable k then none else lookup k d)
  unfolding prune_staging
  pruned_other image = ground (
    arith,
    other,
    lookup-insert name k image d,
    lookup-retain (λ t. text_eq name t || not (e.removable t)) (insert name image d) k,
  )

  pruned_kept :
      (image : Bytes)
      → lookup name (prune_staging e.listed e.removable name (insert name image d)) ≡ some image
  unfolding prune_staging
  pruned_kept image = ground (
    arith,
    text_eq_refl name,
    lookup-insert name name image d,
    lookup-retain (λ t. text_eq name t || not (e.removable t)) (insert name image d) name,
  )

  insert_other : (image : Bytes) → lookup k (insert name image d) ≡ lookup k d
  insert_other image = ground (arith, other, lookup-insert name k image d)

  erase_other : (image : Bytes) → lookup k (erase name (insert name image d)) ≡ lookup k d
  erase_other image =
      ground (arith, other, insert_other image, lookup-erase name k (insert name image d))

  settle_staged_told :
      (image : Bytes)
      → e.closed_before ≡ false
      → read_image e.file ≡ some image
      → consent show_preview e.prompted ≡ ok true
      → e.closed_after ≡ false
      → IsAsTold e show_preview name d k
          (settle_staged e name (insert name image d)).code
          (settle_staged e name (insert name image d))
  unfolding settle_staged
  settle_staged_told image b i c a = elim (Bool-cases e.applied) [
    | inl y ↦ rw y (b, c, a, refl, refl, rw i refl, pruned_kept image ∙ sym i, pruned_other image)
    | inr n ↦ rw n (elim (Bool-cases (e.removable name)) [
      | inl y ↦ rw y (erase_other image)
      | inr m ↦ rw m (insert_other image)
    ])
  ]

  stage_image_told :
      (image : Bytes)
      → e.closed_before ≡ false
      → read_image e.file ≡ some image
      → consent show_preview e.prompted ≡ ok true
      → e.closed_after ≡ false
      → (s : Staging)
      → IsAsTold e show_preview name d k
          (stage_image e name image d s).code
          (stage_image e name image d s)
  stage_image_told image b i c a not_renamed = refl
  stage_image_told image b i c a not_synced = insert_other image
  stage_image_told image b i c a staged = settle_staged_told image b i c a

  after_prompt :
      (image : Bytes)
      → e.closed_before ≡ false
      → read_image e.file ≡ some image
      → consent show_preview e.prompted ≡ ok true
      → (closed : Bool) → e.closed_after ≡ closed
      → IsAsTold e show_preview name d k
          (if closed then leave 1 d else stage_image e name image d e.staging).code
          (if closed then leave 1 d else stage_image e name image d e.staging)
  after_prompt image b i c true q = refl
  after_prompt image b i c false q = stage_image_told image b i c q e.staging

  with_consent_told :
      (image : Bytes)
      → e.closed_before ≡ false
      → read_image e.file ≡ some image
      → (c : Result PreviewError Bool) → consent show_preview e.prompted ≡ c
      → IsAsTold e show_preview name d k
          (with_consent e name image d c).code
          (with_consent e name image d c)
  with_consent_told image b i (err f) c = refl
  with_consent_told image b i (ok false) c = refl
  with_consent_told image b i (ok true) c = after_prompt image b i c e.closed_after refl

  with_image_told :
      e.closed_before ≡ false
      → (i : Option Bytes) → read_image e.file ≡ i
      → IsAsTold e show_preview name d k
          (with_image e show_preview name d i).code
          (with_image e show_preview name d i)
  with_image_told b none i = refl
  with_image_told b (some image) i =
      with_consent_told image b i (consent show_preview e.prompted) refl

  unless_closed :
      (closed : Bool)
      → e.closed_before ≡ closed
      → IsAsTold e show_preview name d k
          (if closed then leave 1 d else with_image e show_preview name d (read_image e.file)).code
          (if closed then leave 1 d else with_image e show_preview name d (read_image e.file))
  unless_closed true b = refl
  unless_closed false b = with_image_told b (read_image e.file) refl

-- A request for a wallpaper that is answered with code 0 was not closed before or after the
-- prompt, was consented to where a preview is shown, was applied by the compositor from the
-- staged name, and leaves under this name the image that was read; every other staged file is
-- removed, as far as the directory can be listed and the file be removed. After any other code
-- every staged file of another name is as it was before.
pub run_set_staged_told :
    (e : Surroundings) (show_preview : Bool) (name : Text) (d : Directory) (k : Text)
    → text_eq name k ≡ false
    → IsAsTold e show_preview name d k
        (run_set_staged e show_preview name d).code
        (run_set_staged e show_preview name d)
unfolding run_set_staged
run_set_staged_told e show_preview name d k other =
    unless_closed e show_preview name d k other e.closed_before refl
