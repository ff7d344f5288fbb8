-- ===== src/Apps/GlobLaws.antt =====
-- apps/desktop.rs: `glob_matches` against the meaning of a glob.
use xdg_desktop_portal_aegis.Prelude.{
  ℕ, zero, suc, ◌+◌, ◌-◌, ◌*◌, ◌≤◌, ◌<◌, ◌≡◌, ◌≢◌, ◌↔◌, ◌⊎◌, inl, inr, refl, subst, Bool, true,
  false, ◌||◌, Option, none, some, [], ◌∷◌, Text, All, ◌==◌, if◌then◌else◌, Bool-cases, length,
  arith,
}
use xdg_desktop_portal_aegis.Apps.Glob.{
  Star, backtrack, only_stars, match_loop, glob_fuel, glob_matches,
}

-- What a glob means: `*` stands for any run of characters, `?` for one, all else for itself.
pub data Globs : Text → Text → Type 0 where
  finish : Globs [] []
  one : {q c : ℕ} {p s : Text} → q ≢ b'*' → (q ≡ b'?') ⊎ (q ≡ c) → Globs p s → Globs (q ∷ p) (c ∷ s)
  leave : {q : ℕ} {p s : Text} → q ≡ b'*' → Globs p s → Globs (q ∷ p) s
  absorb : {q c : ℕ} {p s : Text} → q ≡ b'*' → Globs (q ∷ p) s → Globs (q ∷ p) (c ∷ s)

abbrev pub NoStar : Text → Type 0
NoStar = All (λ c. c ≢ b'*')

-- `p` matches `s` behind a star.
abbrev Behind : Text → Text → Type 0
Behind p s = Globs (b'*' ∷ p) s

one_inv :
    {q c : ℕ} {p s : Text} → q ≢ b'*' → Globs (q ∷ p) (c ∷ s) → ((q ≡ b'?') ⊎ (q ≡ c)) × Globs p s
one_inv n (one _ h g) = (h, g)
one_inv n (leave e g) = absurd (n e)
one_inv n (absorb e g) = absurd (n e)

one_stuck : {q : ℕ} {p : Text} → q ≢ b'*' → ¬ Globs (q ∷ p) []
one_stuck n (leave e g) = n e

star-Behind : {q : ℕ} {p s : Text} → q ≡ b'*' → Globs (q ∷ p) s → Behind p s
star-Behind e (one n h g) = absurd (n e)
star-Behind e (leave _ g) = leave refl g
star-Behind e (absorb _ g) = absorb refl (star-Behind e g)

-- A star before a star is one star.
Behind-star : {q : ℕ} {p s : Text} → q ≡ b'*' → Behind (q ∷ p) s → Behind p s
Behind-star e (one n h g) = absurd (n refl)
Behind-star e (leave _ g) = star-Behind e g
Behind-star e (absorb _ g) = absorb refl (Behind-star e g)

-- The star may stand for what the next item matched.
Behind-drop : {q : ℕ} {p s : Text} → q ≢ b'*' → Behind (q ∷ p) s → Behind p s
Behind-drop n (one m h g) = absurd (m refl)
Behind-drop n (leave _ (one _ h g)) = absorb refl (leave refl g)
Behind-drop n (leave _ (leave e g)) = absurd (n e)
Behind-drop n (leave _ (absorb e g)) = absurd (n e)
Behind-drop n (absorb _ g) = absorb refl (Behind-drop n g)

Behind-one : {q c : ℕ} {p s : Text} → q ≢ b'*' → Behind (q ∷ p) (c ∷ s) → Behind p s
Behind-one n (one m h g) = absurd (m refl)
Behind-one n (leave _ g) = leave refl (one_inv n g).1
Behind-one n (absorb _ g) = Behind-drop n g

Behind-next : {c : ℕ} {p s : Text} → Behind p (c ∷ s) → ¬ Globs p (c ∷ s) → Behind p s
Behind-next (one m h g) n = absurd (m refl)
Behind-next (leave _ g) n = absurd (n g)
Behind-next (absorb _ g) n = g

Behind-finish : {p : Text} → Behind p [] → Globs p []
Behind-finish (leave _ g) = g

only_stars_iff : (p : Text) → (only_stars p ≡ true) ↔ Globs p []
unfolding only_stars
only_stars_iff [] = (λ _. finish, λ _. refl)
only_stars_iff (q ∷ p) = elim (Bool-cases (q == b'*')) [
  | inl e ↦ (
    λ h. leave (ground arith) ((only_stars_iff p).0 (ground arith)),
    λ g. ground (arith, (only_stars_iff p).1 (Behind-finish (star-Behind (ground arith) g))),
  )
  | inr e ↦ (λ h. absurd (ground (arith, e)), λ g. absurd (one_stuck (ground (arith, e)) g))
]

-- The run has ended, and its answer is right about `G`.
abbrev Answers : Type 0 → Option Bool → Type 0
Answers G none = ⊥
Answers G (some true) = G
Answers G (some false) = ¬ G

some-Answers : {G : Type 0} (b : Bool) → (b ≡ true → G) → (G → b ≡ true) → Answers G (some b)
some-Answers true sound complete = sound refl
some-Answers false sound complete = λ g. ground (arith, complete g)

-- `G` is the question asked, and `k` is above the length of every pattern in play.
module _ (G : Type 0) (k : ℕ) where
  -- The last star still decides the question, and what was matched since then was forced. `m`
  -- bounds how often the loop can still go back.
  record Pending (m : ℕ) (p s bp bs : Text) : Type 0 where
    sound : Behind bp bs → G
    complete : G → Behind bp bs
    forced : Globs bp bs → Globs p s
    shorter : length s ≤ length bs
    retries : length bs ≤ m
    small : length bp < k

  abbrev Saved : ℕ → Text → Text → Star → Type 0
  Saved m p s none = G → Globs p s
  Saved m p s (some (bp, bs)) = Pending m p s bp bs

  record Invariant (f m : ℕ) (p s : Text) (star : Star) : Type 0 where
    here : Globs p s → G
    later : G → Behind p s
    saved : Saved m p s star
    plain : NoStar s
    plain_star : NoStar (elim star [ none ↦ [] | some (bp, bs) ↦ bs ])
    room : length s ≤ m
    small : length p < k
    fuel : m * k + length p < f

  -- At a star: the question is whether `p` matches behind it.
  Invariant-star :
      {f m : ℕ} {p s : Text}
      → (Behind p s → G)
      → (G → Behind p s)
      → NoStar s
      → length s ≤ m
      → length p < k
      → m * k + length p < f
      → Invariant f m p s (some (p, s))
  Invariant-star sound complete plain room small fuel = record {
    here = λ g. sound (leave refl g);
    later = complete;
    saved = record {
      sound = sound;
      complete = complete;
      forced = λ g. g;
      shorter = omega arith;
      retries = room;
      small = small;
    };
    plain = plain;
    plain_star = plain;
    room = room;
    small = small;
    fuel = fuel;
  }

  Saved-one :
      (m q c : ℕ) (p s : Text) (star : Star)
      → q ≢ b'*'
      → Saved m (q ∷ p) (c ∷ s) star
      → Saved m p s star
  Saved-one m q c p s none n h = λ g. (one_inv n (h g)).1
  Saved-one m q c p s (some (bp, bs)) n h = record {
    sound = h.sound;
    complete = h.complete;
    forced = λ g. (one_inv n (h.forced g)).1;
    shorter = omega arith;
    retries = h.retries;
    small = h.small;
  }

  Invariant-one :
      {f m q c : ℕ} {p s : Text} {star : Star}
      → q ≢ b'*'
      → (q ≡ b'?') ⊎ (q ≡ c)
      → Invariant (suc f) m (q ∷ p) (c ∷ s) star
      → Invariant f m p s star
  Invariant-one {f} {m} {q} {c} {p} {s} {star} n h i = record {
    here = λ g. i.here (one n h g);
    later = λ g. Behind-one n (i.later g);
    saved = Saved-one m q c p s star n i.saved;
    plain = i.plain.1;
    plain_star = i.plain_star;
    room = omega arith;
    small = omega arith;
    fuel = omega arith;
  }

  backtrack-Answers :
      {f c : ℕ} {p s : Text} (m : ℕ) (star : Star) (next : Text → Text → Star → Option Bool)
      → ((m' : ℕ) (p' s' : Text) (star' : Star)
          → Invariant f m' p' s' star'
          → Answers G (next p' s' star'))
      → ¬ Globs p (c ∷ s)
      → Invariant (suc f) m p (c ∷ s) star
      → Answers G (backtrack star next)
  backtrack-Answers m none next ih stuck i = λ g. stuck (i.saved g)
  backtrack-Answers m (some (bp, [])) next ih stuck i = absurd (omega (arith, i.saved.shorter))
  backtrack-Answers zero (some (bp, b ∷ bs)) next ih stuck i =
      absurd (omega (arith, i.saved.retries))
  backtrack-Answers (suc m) (some (bp, b ∷ bs)) next ih stuck i = ih m bp bs (some (bp, bs)) (
      Invariant-star (λ g. i.saved.sound (absorb refl g))
        (λ g. Behind-next (i.saved.complete g) (λ d. stuck (i.saved.forced d))) i.plain_star.1
        (omega (arith, i.saved.retries)) i.saved.small (omega (arith, i.fuel, i.saved.small)))

  match_loop-Answers :
      (f m : ℕ) (p s : Text) (star : Star)
      → Invariant f m p s star
      → Answers G (match_loop f p s star)
  unfolding match_loop
  match_loop-Answers zero m p s star i = absurd (omega (arith, i.fuel))
  match_loop-Answers (suc f) m p [] star i =
      some-Answers (only_stars p) (λ h. i.here ((only_stars_iff p).0 h))
        (λ g. (only_stars_iff p).1 (Behind-finish (i.later g)))
  match_loop-Answers (suc f) m [] (c ∷ s) star i =
      backtrack-Answers m star (match_loop f) (match_loop-Answers f) (λ g. elim g [ ]) i
  match_loop-Answers (suc f) m (q ∷ p) (c ∷ s) star i = elim (Bool-cases (q == b'?' || q == c)) [
    | inl hit ↦ rw hit (
        match_loop-Answers f m p s star
          (Invariant-one (ground (arith, i.plain.0, hit)) (ground (arith, hit)) i))
    | inr miss ↦ rw miss (elim (Bool-cases (q == b'*')) [
      | inl e ↦ rw e (
          match_loop-Answers f m p (c ∷ s) (some (p, c ∷ s)) (
            Invariant-star (λ g. i.here (subst (λ x. Globs (x ∷ p) (c ∷ s)) (ground (arith, e)) g))
              (λ g. Behind-star (ground (arith, e)) (i.later g)) i.plain i.room
              (omega (arith, i.small)) (omega (arith, i.fuel))))
      | inr n ↦ rw n (
          backtrack-Answers m star (match_loop f) (match_loop-Answers f)
            (λ g. ground (arith, one_inv (ground (arith, n)) g, miss)) i)
    ])
  ]

abbrev pub folded : (Text → Text) → Bool → Text → Text
folded lower case_sensitive t = if case_sensitive then t else lower t

match_loop_decides :
    (p s : Text) → NoStar s → Answers (Globs p s) (match_loop (glob_fuel p s) p s none)
match_loop_decides p s plain =
    match_loop-Answers (Globs p s) (length p + 1) (glob_fuel p s) (length s) p s none (record {
      here = λ g. g;
      later = leave refl;
      saved = λ g. g;
      plain = plain;
      plain_star = tt;
      room = omega arith;
      small = omega arith;
      fuel = omega arith;
    })

Answers-cases :
    {G : Type 0} (r : Option Bool)
    → Answers G r
    → ((r ≡ some true) × G) ⊎ ((r ≡ some false) × (¬ G))
Answers-cases none a = absurd a
Answers-cases (some true) a = inl (refl, a)
Answers-cases (some false) a = inr (refl, a)

-- On a file name that holds no `*` once its case is folded, `glob_matches` ends within its fuel,
-- and answers true exactly if the folded name is in the meaning of the folded glob.
pub glob_matches_decides :
    (lower : Text → Text) (glob name : Text) (case_sensitive : Bool)
    → NoStar (folded lower case_sensitive name)
    → let p = folded lower case_sensitive glob in
      let s = folded lower case_sensitive name in
      ((glob_matches lower glob name case_sensitive ≡ some true) × Globs p s)
      ⊎ ((glob_matches lower glob name case_sensitive ≡ some false) × (¬ Globs p s))
unfolding glob_matches
glob_matches_decides lower glob name case_sensitive plain =
    let p : Text = folded lower case_sensitive glob in
    let s : Text = folded lower case_sensitive name in
    Answers-cases (match_loop (glob_fuel p s) p s none) (match_loop_decides p s plain)

match_loop_missed :
    (f q c : ℕ) (p s : Text)
    → q ≢ b'?'
    → q ≢ b'*'
    → q ≢ c
    → match_loop (suc (suc f)) (b'*' ∷ q ∷ p) (b'*' ∷ c ∷ s) none ≡ some false
unfolding match_loop
match_loop_missed f q c p s wild star other = ground arith

-- A `*` at the head of a file name is taken by the glob's own `*` as if both were the same letter:
-- of a glob `*q…` and a name `*c…` with a plain letter `q` other than `c`, the case-sensitive
-- match answers false, although the name is in the meaning of the glob whenever what follows `c`
-- matches `q…`.
pub glob_matches_missed :
    (lower : Text → Text) (q c : ℕ) (p s : Text)
    → q ≢ b'?'
    → q ≢ b'*'
    → q ≢ c
    → Globs (q ∷ p) s
    → Globs (b'*' ∷ q ∷ p) (b'*' ∷ c ∷ s)
      × (glob_matches lower (b'*' ∷ q ∷ p) (b'*' ∷ c ∷ s) true ≡ some false)
unfolding glob_matches
glob_matches_missed lower q c p s wild star other g =
    let f : ℕ = glob_fuel (b'*' ∷ q ∷ p) (b'*' ∷ c ∷ s) - 2 in
    let e : glob_fuel (b'*' ∷ q ∷ p) (b'*' ∷ c ∷ s) ≡ suc (suc f) = omega arith in
    (absorb refl (absorb refl (leave refl g)), rw e (match_loop_missed f q c p s wild star other))
