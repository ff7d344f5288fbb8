-- ===== src/Cast/Reclaimed.antt =====
-- cast/publish.rs and cast/mod.rs: reclaiming and removing buffers keeps the slots accounted for.
use xdg_desktop_portal_aegis.Prelude.{
  ℕ, ◌<◌, ◌≡◌, refl, sym, ap, subst, ◌∙◌, inl, inr, true, false, not, Option, none, some, List, [],
  ◌∷◌, length, ◌==◌, ==_iff, if◌then◌else◌, Bool-cases, Option-cases, retain, arith,
}
use xdg_desktop_portal_aegis.Cast.Transport.{
  SlotBinding, StreamData, release_slot, forwarding_eligible,
}
use xdg_desktop_portal_aegis.Cast.Publish.{
  slot_of, update_binding, rebind, flying, is_in_flight, set_in_flight, stash, reclaim_bound,
  reclaim_returned_buffers,
}
use xdg_desktop_portal_aegis.Cast.Slots.{
  bind_first, add_buffer, remove_buffer, remove_bound, unbind,
}
use xdg_desktop_portal_aegis.Cast.Ownership.{
  releases_of, names_slot, waiting, owed, IsSettled, IsSettled-step, release_slot_table,
  length-update_binding, flying-update_binding, flying_bound, length-bind_first, flying-bind_first,
}

-- A slot whose buffer comes back is released, and is no longer in flight.
landed-IsSettled :
    (slot : ℕ) (f : SlotBinding → SlotBinding) (d : StreamData) (sent : List ℕ)
    → ((b : SlotBinding) → (f b).in_flight ≡ false)
    → is_in_flight slot d.transport ≡ true
    → IsSettled d sent
    → IsSettled (release_slot slot (rebind slot f d)) sent
landed-IsSettled slot f d sent lands flies s =
    let own = (==_iff d.transport.stream_id d.transport.stream_id).1 refl in
    let after : (j : ℕ)
        → flying (update_binding slot f d.transport.slot_bindings) j
          ≡ (if slot == j then false else flying d.transport.slot_bindings j) =
      λ j.
        flying-update_binding d.transport.slot_bindings f slot j false lands
          (flying_bound d.transport.slot_bindings slot flies) in
    let there : (j : ℕ) → (slot == j) ≡ true → flying d.transport.slot_bindings j ≡ true =
      λ j e. subst (λ n. flying d.transport.slot_bindings n ≡ true) ((==_iff slot j).0 e) flies in
    subst (λ x. IsSettled x sent) (sym (release_slot_table slot (rebind slot f d) s.has_table))
      (IsSettled-step d
        (record (rebind slot f d) { releases = (d.transport.stream_id, slot) ∷ d.releases }) sent
        sent s refl refl (length-update_binding d.transport.slot_bindings f slot) s.within
        (λ j. ground (arith, after j, s.once j)) (λ j. ground (arith, after j, there j, own)))

-- A binding that is not in flight may change, if it does not take off.
grounded-IsSettled :
    (slot : ℕ) (f : SlotBinding → SlotBinding) (d : StreamData) (sent : List ℕ)
    → ((b : SlotBinding) → (f b).in_flight ≡ false)
    → is_in_flight slot d.transport ≡ false
    → slot < length d.transport.slot_bindings
    → IsSettled d sent
    → IsSettled (rebind slot f d) sent
grounded-IsSettled slot f d sent lands rests bound s =
    let after : (j : ℕ)
        → flying (update_binding slot f d.transport.slot_bindings) j
          ≡ (if slot == j then false else flying d.transport.slot_bindings j) =
      λ j. flying-update_binding d.transport.slot_bindings f slot j false lands bound in
    let there : (j : ℕ) → (slot == j) ≡ true → flying d.transport.slot_bindings j ≡ false =
      λ j e. subst (λ n. flying d.transport.slot_bindings n ≡ false) ((==_iff slot j).0 e) rests in
    IsSettled-step d (rebind slot f d) sent sent s refl refl
      (length-update_binding d.transport.slot_bindings f slot) s.within
      (λ j. ground (arith, after j, s.once j)) (λ j. ground (arith, after j, there j))

-- Only the stream, the table, the latest frame and the releases matter.
pub kept-IsSettled :
    (d e : StreamData) (sent : List ℕ)
    → e.transport ≡ d.transport
    → e.latest ≡ d.latest
    → e.pending ≡ d.pending
    → e.releases ≡ d.releases
    → IsSettled d sent
    → IsSettled e sent
kept-IsSettled d e sent same latest pending releases s =
    let owes : (j : ℕ) → owed j e ≡ owed j d = λ j.
      ground (
        arith,
        pending,
        ap (λ l. names_slot j l) latest,
        ap (λ t. flying t.slot_bindings j) same,
      ) in
    let waits : (j : ℕ) → waiting j e ≡ waiting j d =
      λ j. ground (arith, pending, ap (λ l. names_slot j l) latest) in
    IsSettled-step d e sent sent s (ap (λ t. t.stream_id) same) (ap (λ t. t.slot_files) same)
      (ap (λ t. length t.slot_bindings) same) (λ j h. s.within j (sym (waits j) ∙ h))
      (λ j. omega (arith, owes j, s.once j))
      (λ j. omega (arith, owes j, ap (releases_of d.transport.stream_id j) releases))

slot_of_bound : (raw : ℕ) (bs : List SlotBinding) (i : ℕ) → slot_of raw bs ≡ some i → i < length bs
unfolding slot_of
slot_of_bound raw [] i h = absurd (ground (arith, h))
slot_of_bound raw (b ∷ bs) i h = elim (Option-cases (slot_of raw bs)) [
  | inl q ↦ ground (arith, h, q)
  | inr (k, q) ↦ ground (arith, h, q, slot_of_bound raw bs k q)
]

reclaim_bound-IsSettled :
    (raw : ℕ) (found : Option ℕ) (d : StreamData) (sent : List ℕ)
    → IsSettled d sent
    → IsSettled (reclaim_bound raw found d) sent
reclaim_bound-IsSettled raw none d sent s =
    kept-IsSettled d (stash raw d) sent refl refl refl refl s
reclaim_bound-IsSettled raw (some slot) d sent s =
    elim (Bool-cases (is_in_flight slot d.transport)) [
      | inl e ↦ rw e (landed-IsSettled slot (set_in_flight false) d sent (λ b. refl) e s)
      | inr e ↦ rw e s
    ]

pub reclaim-IsSettled :
    (returned : List ℕ) (d : StreamData) (sent : List ℕ)
    → IsSettled d sent
    → IsSettled (reclaim_returned_buffers returned d) sent
unfolding reclaim_returned_buffers
reclaim-IsSettled [] d sent s = s
reclaim-IsSettled (raw ∷ more) d sent s =
    let found = slot_of raw d.transport.slot_bindings in
    reclaim-IsSettled more (reclaim_bound raw found d) sent
      (reclaim_bound-IsSettled raw found d sent s)

remove_bound-IsSettled :
    (found : Option ℕ) (d : StreamData) (sent : List ℕ)
    → ((i : ℕ) → found ≡ some i → i < length d.transport.slot_bindings)
    → IsSettled d sent
    → IsSettled (remove_bound found d) sent
remove_bound-IsSettled none d sent bound s = s
remove_bound-IsSettled (some slot) d sent bound s =
    elim (Bool-cases (is_in_flight slot d.transport)) [
      | inl e ↦ rw e (landed-IsSettled slot unbind d sent (λ b. refl) e s)
      | inr e ↦ rw e (grounded-IsSettled slot unbind d sent (λ b. refl) e (bound slot refl) s)
    ]

pub remove_buffer-IsSettled :
    (raw : ℕ) (d : StreamData) (sent : List ℕ)
    → IsSettled d sent
    → IsSettled (remove_buffer raw d) sent
unfolding remove_buffer
remove_buffer-IsSettled raw d sent s =
    remove_bound-IsSettled (slot_of raw d.transport.slot_bindings)
      (record d { pool = retain (λ p. not (p == raw)) d.pool }) sent
      (slot_of_bound raw d.transport.slot_bindings)
      (kept-IsSettled d (record d { pool = retain (λ p. not (p == raw)) d.pool }) sent refl refl
        refl refl s)

pub add_buffer-IsSettled :
    (raw : ℕ) (d : StreamData) (sent : List ℕ)
    → IsSettled d sent
    → IsSettled (add_buffer raw d) sent
unfolding add_buffer
add_buffer-IsSettled raw d sent s =
    let bound : StreamData = record d {
      transport = record (d.transport) { slot_bindings = bind_first raw d.transport.slot_bindings };
    } in
    let same = flying-bind_first raw d.transport.slot_bindings in
    elim (Bool-cases (forwarding_eligible d.negotiation)) [
      | inr e ↦ rw e s
      | inl e ↦ rw e (
          IsSettled-step d bound sent sent s refl refl
            (length-bind_first raw d.transport.slot_bindings) s.within
            (λ j. ground (arith, same j, s.once j)) (λ j. ground (arith, same j)))
    ]
