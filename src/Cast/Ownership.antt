-- ===== src/Cast/Ownership.antt =====
-- cast/state.rs, cast/publish.rs: who owns each slot, over the histories of one compositor stream.
use xdg_desktop_portal_aegis.Prelude.{
  ℕ, zero, suc, ◌+◌, ◌≤◌, ◌<◌, ◌≡◌, refl, sym, ap, subst, ◌∙◌, Bool, true, false, ◌&&◌, Option,
  none, some, List, [], ◌∷◌, length, is_empty, ◌==◌, ==_iff, if◌then◌else◌, arith,
}
use xdg_desktop_portal_aegis.Cast.Frame.{FramePayload, descriptor, of_slot}
use xdg_desktop_portal_aegis.Cast.Transport.{
  SlotBinding, StreamData, release_slot, replace_latest, release_superseded,
}
use xdg_desktop_portal_aegis.Cast.Publish.{update_binding, flying}
use xdg_desktop_portal_aegis.Cast.Slots.{bind_first}

-- How often a slot of a stream is in a list of releases.
abbrev pub releases_of : ℕ → ℕ → List (ℕ × ℕ) → ℕ
releases_of stream slot [] = 0
releases_of stream slot ((i, s) ∷ rest) =
    (if i == stream && s == slot then 1 else 0) + releases_of stream slot rest

abbrev pub frames_of : ℕ → List ℕ → ℕ
frames_of slot [] = 0
frames_of slot (s ∷ rest) = (if s == slot then 1 else 0) + frames_of slot rest

abbrev pub names_slot : ℕ → Option FramePayload → Bool
names_slot slot (some (of_slot s damage)) = s == slot
names_slot slot _ = false

-- The slot's frame waits to be published.
abbrev pub waiting : ℕ → StreamData → Bool
waiting slot d = d.pending && names_slot slot d.latest

abbrev pub count : Bool → ℕ
count true = 1
count false = 0

-- What the cast owes the compositor for a slot: nothing, or one release.
abbrev pub owed : ℕ → StreamData → ℕ
owed slot d = count (waiting slot d) + count (flying d.transport.slot_bindings slot)

-- The live stream has a slot table with a binding for each slot, and each frame that the compositor
-- put into a slot is accounted for: the slot was released for it, or it still is owed.
pub record IsSettled (d : StreamData) (sent : List ℕ) : Type 0 where
  pub has_table : is_empty d.transport.slot_files ≡ false
  pub sized : length d.transport.slot_bindings ≡ length d.transport.slot_files
  pub within : (slot : ℕ) → waiting slot d ≡ true → slot < length d.transport.slot_files
  pub once : (slot : ℕ) → owed slot d ≤ 1
  pub balance :
      (slot : ℕ)
      → frames_of slot sent ≡ releases_of d.transport.stream_id slot d.releases + owed slot d

==_suc : (i j : ℕ) → (suc i == suc j) ≡ (i == j)
==_suc i j = ground (arith, ==_iff i j, ==_iff (suc i) (suc j))

pub length-update_binding :
    (bs : List SlotBinding) (f : SlotBinding → SlotBinding) (i : ℕ)
    → length (update_binding i f bs) ≡ length bs
unfolding update_binding
length-update_binding [] f i = refl
length-update_binding (b ∷ bs) f zero = refl
length-update_binding (b ∷ bs) f (suc i) = ap suc (length-update_binding bs f i)

pub flying-update_binding :
    (bs : List SlotBinding) (f : SlotBinding → SlotBinding) (i j : ℕ) (flag : Bool)
    → ((b : SlotBinding) → (f b).in_flight ≡ flag)
    → i < length bs
    → flying (update_binding i f bs) j ≡ (if i == j then flag else flying bs j)
unfolding update_binding
flying-update_binding [] f i j flag same h = absurd (omega (arith, h))
flying-update_binding (b ∷ bs) f zero zero flag same h = same b
flying-update_binding (b ∷ bs) f zero (suc j) flag same h = ground arith
flying-update_binding (b ∷ bs) f (suc i) zero flag same h = ground arith
flying-update_binding (b ∷ bs) f (suc i) (suc j) flag same h =
    ground (arith, ==_suc i j, flying-update_binding bs f i j flag same (omega (arith, h)))

pub flying_bound : (bs : List SlotBinding) (i : ℕ) → flying bs i ≡ true → i < length bs
flying_bound [] i h = absurd (ground (arith, h))
flying_bound (b ∷ bs) zero h = omega arith
flying_bound (b ∷ bs) (suc i) h = let less = flying_bound bs i h in omega (arith, less)

pub length-bind_first : (raw : ℕ) (bs : List SlotBinding) → length (bind_first raw bs) ≡ length bs
unfolding bind_first
length-bind_first raw [] = refl
length-bind_first raw (b ∷ bs) = ground (arith, length-bind_first raw bs)

pub flying-bind_first :
    (raw : ℕ) (bs : List SlotBinding) (j : ℕ) → flying (bind_first raw bs) j ≡ flying bs j
unfolding bind_first
flying-bind_first raw [] j = refl
flying-bind_first raw (b ∷ bs) zero = ground arith
flying-bind_first raw (b ∷ bs) (suc j) = ground (arith, flying-bind_first raw bs j)

-- A step that keeps the stream and its table, and that keeps count.
pub IsSettled-step :
    (d e : StreamData) (sent more : List ℕ)
    → IsSettled d sent
    → e.transport.stream_id ≡ d.transport.stream_id
    → e.transport.slot_files ≡ d.transport.slot_files
    → length e.transport.slot_bindings ≡ length d.transport.slot_bindings
    → ((j : ℕ) → waiting j e ≡ true → j < length d.transport.slot_files)
    → ((j : ℕ) → owed j e ≤ 1)
    → ((j : ℕ)
        → frames_of j more + releases_of d.transport.stream_id j d.releases + owed j d
          ≡ frames_of j sent + releases_of d.transport.stream_id j e.releases + owed j e)
    → IsSettled e more
IsSettled-step d e sent more s same files bindings within once balance = record {
  has_table = subst (λ t. is_empty t ≡ false) (sym files) s.has_table;
  sized = bindings ∙ s.sized ∙ ap length (sym files);
  within = λ j h. subst (λ t. j < length t) (sym files) (within j h);
  once = once;
  balance = λ j.
      subst (λ i. frames_of j more ≡ releases_of i j e.releases + owed j e) (sym same)
        (omega (arith, s.balance j, balance j));
}

pub release_slot_table :
    (slot : ℕ) (d : StreamData)
    → is_empty d.transport.slot_files ≡ false
    → release_slot slot d ≡ record d { releases = (d.transport.stream_id, slot) ∷ d.releases }
unfolding release_slot
release_slot_table slot d h = rw h refl

-- A slot frame is stored once the compositor owns its slot, or a frame with its own descriptor is.
abbrev pub adds : FramePayload → List ℕ → List ℕ
adds (of_slot slot damage) sent = slot ∷ sent
adds (descriptor file stride damage) sent = sent

abbrev pub IsOwn : FramePayload → StreamData → Type 0
IsOwn (of_slot slot damage) d = (slot < length d.transport.slot_files) × (owed slot d ≡ 0)
IsOwn (descriptor file stride damage) d = Unit

superseded_count :
    (p : Bool) (l : Option FramePayload) (d : StreamData) (j : ℕ)
    → is_empty d.transport.slot_files ≡ false
    → releases_of d.transport.stream_id j (release_superseded p l d).releases
      ≡ releases_of d.transport.stream_id j d.releases + count (p && names_slot j l)
superseded_count false l d j h = omega arith
superseded_count true none d j h = omega arith
superseded_count true (some (descriptor file stride damage)) d j h = omega arith
superseded_count true (some (of_slot slot damage)) d j h =
    let own = (==_iff d.transport.stream_id d.transport.stream_id).1 refl in
    rw (release_slot_table slot d h) (ground (arith, own))

superseded_transport :
    (p : Bool) (l : Option FramePayload) (d : StreamData)
    → (release_superseded p l d).transport ≡ d.transport
unfolding release_slot
superseded_transport false l d = refl
superseded_transport true none d = refl
superseded_transport true (some (descriptor file stride damage)) d = refl
superseded_transport true (some (of_slot slot damage)) d = ground arith

own_within :
    (payload : FramePayload) (d : StreamData) (j : ℕ)
    → IsOwn payload d
    → names_slot j (some payload) ≡ true
    → j < length d.transport.slot_files
own_within (descriptor file stride damage) d j own h = absurd (ground (arith, h))
own_within (of_slot slot damage) d j own h =
    subst (λ n. n < length d.transport.slot_files) ((==_iff slot j).0 h) own.0

own_once :
    (payload : FramePayload) (d : StreamData) (j : ℕ)
    → IsOwn payload d
    → owed j d ≤ 1
    → count (names_slot j (some payload)) + count (flying d.transport.slot_bindings j) ≤ 1
own_once (descriptor file stride damage) d j own h = ground (arith, h)
own_once (of_slot slot damage) d j own h =
    ground (arith, h, ==_iff slot j, own.1, ap (λ n. owed n d))

own_frames :
    (payload : FramePayload) (sent : List ℕ) (j : ℕ)
    → frames_of j (adds payload sent) ≡ frames_of j sent + count (names_slot j (some payload))
own_frames (descriptor file stride damage) sent j = omega arith
own_frames (of_slot slot damage) sent j = ground arith

pub replace_latest-IsSettled :
    (payload : FramePayload) (d : StreamData) (sent : List ℕ)
    → IsOwn payload d
    → IsSettled d sent
    → IsSettled (replace_latest payload d) (adds payload sent)
unfolding replace_latest
replace_latest-IsSettled payload d sent own s =
    let same = superseded_transport d.pending d.latest d in
    let bindings : (j : ℕ)
        → flying (release_superseded d.pending d.latest d).transport.slot_bindings j
          ≡ flying d.transport.slot_bindings j =
      λ j. ap (λ t. flying t.slot_bindings j) same in
    IsSettled-step d (replace_latest payload d) sent (adds payload sent) s
      (ap (λ t. t.stream_id) same) (ap (λ t. t.slot_files) same)
      (ap (λ t. length t.slot_bindings) same) (λ j h. own_within payload d j own h)
      (λ j. ground (arith, bindings j, own_once payload d j own (s.once j)))
      (λ j. ground (
        arith,
        bindings j,
        own_frames payload sent j,
        superseded_count d.pending d.latest d j s.has_table,
      ))
