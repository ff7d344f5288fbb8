-- ===== src/Cast/Processed.antt =====
-- cast/publish.rs: `process_frame` keeps the slots accounted for.
use xdg_desktop_portal_aegis.Prelude.{
  ℕ, zero, suc, ◌*◌, ◌<◌, ◌≡◌, refl, sym, ap, subst, ◌∙◌, inl, inr, Bool, true, false, Option, none,
  some, List, [], ◌∷◌, length, get_elem?, get_elem?-length, ltb, ◌==◌, ==_iff, if◌then◌else◌,
  Bool-cases, Option-cases, arith,
}
use xdg_desktop_portal_aegis.Cast.Meta.{Rect}
use xdg_desktop_portal_aegis.Cast.Frame.{FramePayload, descriptor, of_slot}
use xdg_desktop_portal_aegis.Cast.Copy.{Bytes, copy_rows}
use xdg_desktop_portal_aegis.Cast.Transport.{
  SlotBinding, StreamSlot, StreamData, release_slot, forwarding_eligible, cpu_mappable,
}
use xdg_desktop_portal_aegis.Cast.Publish.{
  FileView, unstatable, unmappable, mapped, Copied, count_drop, queue_copy, stash, published,
  into_buffer, with_buffer, too_small, copy_into_pool, take_buffer, flying, set_in_flight,
  update_binding, reclaim_returned_buffers,
}
use xdg_desktop_portal_aegis.Cast.Slots.{
  forward_slot, copy_slot, publish_unbound, publish_bound, publish_slot, publish_frame,
  process_frame,
}
use xdg_desktop_portal_aegis.Cast.Ownership.{
  names_slot, waiting, IsSettled, IsSettled-step, release_slot_table, length-update_binding,
  flying-update_binding,
}
use xdg_desktop_portal_aegis.Cast.Reclaimed.{kept-IsSettled, reclaim-IsSettled}

-- What a copy leaves alone.
abbrev IsKept : StreamData → StreamData → Type 0
IsKept d e =
    (e.transport ≡ d.transport)
    × (e.latest ≡ d.latest)
    × (e.pending ≡ d.pending)
    × (e.releases ≡ d.releases)

IsKept-whole :
    (d : StreamData) (sent : List ℕ) (e : StreamData)
    → IsKept d e
    → IsSettled d sent
    → IsSettled e sent
IsKept-whole d sent e (t, l, p, r) s = kept-IsSettled d e sent t l p r s

some-IsKept :
    (d : StreamData) (x c : Copied) → IsKept d x.after → some x ≡ some c → IsKept d c.after
some-IsKept d x c k h = let same : x ≡ c = ground (arith, h) in subst (λ y. IsKept d y.after) same k

module _ (memory : ℕ → Option Bytes) where
  published-IsKept :
      (raw : ℕ) (free : List ℕ) (d : StreamData) (o : Option Bytes) (c : Copied)
      → published raw free d o ≡ some c
      → IsKept d c.after
  published-IsKept raw free d none c h = absurd (ground (arith, h))
  published-IsKept raw free d (some picture) c h =
      some-IsKept d
        (record { taken = true; picture = some picture; free = free; after = queue_copy raw d }) c
        (refl, refl, refl, refl) h

  into_buffer-IsKept :
      (src : Bytes) (stride row_bytes height raw : ℕ) (free : List ℕ) (d : StreamData)
      (o : Option Bytes) (c : Copied)
      → into_buffer memory src stride row_bytes height raw free d o ≡ some c
      → IsKept d c.after
  into_buffer-IsKept src stride row_bytes height raw free d none c h =
      some-IsKept d _ c (refl, refl, refl, refl) h
  into_buffer-IsKept src stride row_bytes height raw free d (some dest) c h =
      elim (Bool-cases (ltb (length dest) (height * row_bytes))) [
        | inl e ↦
            some-IsKept d
              (record {
                taken = true;
                picture = none;
                free = free;
                after = count_drop (stash raw d);
              })
              c (refl, refl, refl, refl) (ground (arith, h, e))
        | inr e ↦
            published-IsKept raw free d (copy_rows src stride dest row_bytes height) c
              (ground (arith, h, e))
      ]

  with_buffer-IsKept :
      (src : Bytes) (stride row_bytes height : ℕ) (free : List ℕ) (d : StreamData)
      (o : Option (ℕ × List ℕ × List ℕ)) (c : Copied)
      → with_buffer memory src stride row_bytes height free d o ≡ some c
      → IsKept d c.after
  with_buffer-IsKept src stride row_bytes height free d none c h =
      some-IsKept d (record { taken = false; picture = none; free = free; after = d }) c
        (refl, refl, refl, refl) h
  with_buffer-IsKept src stride row_bytes height free d (some (raw, pool, rest)) c h =
      into_buffer-IsKept src stride row_bytes height raw rest (record d { pool = pool })
        (memory raw) c h

  copy_into_pool-IsKept :
      (view : FileView) (stride width height : ℕ) (free : List ℕ) (d : StreamData) (c : Copied)
      → copy_into_pool memory view stride width height free d ≡ some c
      → IsKept d c.after
  unfolding copy_into_pool
  copy_into_pool-IsKept unstatable stride width height free d c h =
      some-IsKept d (record { taken = true; picture = none; free = free; after = count_drop d }) c
        (refl, refl, refl, refl) h
  copy_into_pool-IsKept (unmappable len) stride width height free d c h =
      elim (Bool-cases (too_small len stride (width * 4) height)) [
        | inl e ↦
            some-IsKept d
              (record { taken = true; picture = none; free = free; after = count_drop d }) c
              (refl, refl, refl, refl) (ground (arith, h, e))
        | inr e ↦
            some-IsKept d
              (record {
                taken = true;
                picture = none;
                free = free;
                after = record d {
                  dropped_frames = suc d.dropped_frames;
                  warned_unmappable = true;
                };
              })
              c (refl, refl, refl, refl) (ground (arith, h, e))
      ]
  copy_into_pool-IsKept (mapped src) stride width height free d c h =
      elim (Bool-cases (too_small (length src) stride (width * 4) height)) [
        | inl e ↦
            some-IsKept d
              (record { taken = true; picture = none; free = free; after = count_drop d }) c
              (refl, refl, refl, refl) (ground (arith, h, e))
        | inr e ↦
            with_buffer-IsKept src stride (width * 4) height free d (take_buffer d.pool free) c
              (ground (arith, h, e))
      ]

-- The waiting frame's slot is released, and the frame waits no longer.
returned-IsSettled :
    (slot : ℕ) (damage : List Rect) (d : StreamData) (sent : List ℕ)
    → d.pending ≡ true
    → d.latest ≡ some (of_slot slot damage)
    → IsSettled d sent
    → IsSettled (record (release_slot slot d) { pending = false }) sent
returned-IsSettled slot damage d sent p l s =
    let own = (==_iff d.transport.stream_id d.transport.stream_id).1 refl in
    let names : (j : ℕ) → names_slot j d.latest ≡ (slot == j) = λ j. ap (names_slot j) l in
    subst (λ x. IsSettled (record x { pending = false }) sent)
      (sym (release_slot_table slot d s.has_table))
      (IsSettled-step d
        (record d { releases = (d.transport.stream_id, slot) ∷ d.releases; pending = false }) sent
        sent s refl refl refl (λ j h. absurd (ground (arith, h))) (λ j. ground (arith, s.once j))
        (λ j. ground (arith, names j, p, own)))

-- A frame that names no slot waits no longer.
idle-IsSettled :
    (d : StreamData) (sent : List ℕ)
    → ((j : ℕ) → names_slot j d.latest ≡ false)
    → IsSettled d sent
    → IsSettled (record d { pending = false }) sent
idle-IsSettled d sent nameless s =
    IsSettled-step d (record d { pending = false }) sent sent s refl refl refl
      (λ j h. absurd (ground (arith, h))) (λ j. ground (arith, s.once j))
      (λ j. ground (arith, nameless j))

-- The waiting frame's buffer goes out.
forwarded-IsSettled :
    (slot raw : ℕ) (damage : List Rect) (d : StreamData) (sent : List ℕ)
    → d.pending ≡ true
    → d.latest ≡ some (of_slot slot damage)
    → slot < length d.transport.slot_bindings
    → IsSettled d sent
    → IsSettled (record (forward_slot slot raw d) { pending = false }) sent
forwarded-IsSettled slot raw damage d sent p l bound s =
    let names : (j : ℕ) → names_slot j d.latest ≡ (slot == j) = λ j. ap (names_slot j) l in
    let after : (j : ℕ)
        → flying (update_binding slot (set_in_flight true) d.transport.slot_bindings) j
          ≡ (if slot == j then true else flying d.transport.slot_bindings j) =
      λ j.
        flying-update_binding d.transport.slot_bindings (set_in_flight true) slot j true (λ b. refl)
          bound in
    IsSettled-step d (record (forward_slot slot raw d) { pending = false }) sent sent s refl refl
      (length-update_binding d.transport.slot_bindings (set_in_flight true) slot)
      (λ j h. absurd (ground (arith, h))) (λ j. ground (arith, after j, s.once j))
      (λ j. ground (arith, after j, names j, p, s.once j))

flying-get_elem? :
    (bs : List SlotBinding) (i : ℕ) (b : SlotBinding)
    → get_elem? bs i ≡ some b
    → flying bs i ≡ b.in_flight
flying-get_elem? [] i b h = absurd (ground (arith, h))
flying-get_elem? (c ∷ bs) zero b h =
    let same : c ≡ b = ground (arith, h) in ap (λ x. x.in_flight) same
flying-get_elem? (c ∷ bs) (suc i) b h = flying-get_elem? bs i b h

module _ (files : ℕ → FileView) (memory : ℕ → Option Bytes) where
  copy_slot-IsSettled :
      (slot : ℕ) (damage : List Rect) (free : List ℕ) (d e : StreamData) (o : Option StreamSlot)
      (sent : List ℕ)
      → d.pending ≡ true
      → d.latest ≡ some (of_slot slot damage)
      → copy_slot files memory slot free d o ≡ some e
      → IsSettled d sent
      → IsSettled (record e { pending = false }) sent
  copy_slot-IsSettled slot damage free d e none sent p l h s = absurd (ground (arith, h))
  copy_slot-IsSettled slot damage free d e (some file) sent p l h s =
      let copy =
        copy_into_pool memory (files file.file) file.stride d.transport.width d.transport.height
          free d in
      elim (Option-cases copy) [
        | inl q ↦ absurd (ground (arith, h, q))
        | inr (c, q) ↦
            let k =
              copy_into_pool-IsKept memory (files file.file) file.stride d.transport.width
                d.transport.height free d c q in
            let out : release_slot slot c.after ≡ e = ground (arith, h, q) in
            subst (λ x. IsSettled (record x { pending = false }) sent) out
              (returned-IsSettled slot damage c.after sent (k.2 ∙ p) (k.1 ∙ l)
                (IsKept-whole d sent c.after k s))
      ]

  publish_unbound-IsSettled :
      (slot : ℕ) (damage : List Rect) (free : List ℕ) (d e : StreamData) (sent : List ℕ)
      → d.pending ≡ true
      → d.latest ≡ some (of_slot slot damage)
      → publish_unbound files memory slot free d ≡ some e
      → IsSettled d sent
      → IsSettled (record e { pending = false }) sent
  publish_unbound-IsSettled slot damage free d e sent p l h s =
      elim (Bool-cases (cpu_mappable d.transport)) [
        | inl q ↦
            copy_slot-IsSettled slot damage free d e (get_elem? d.transport.slot_files slot) sent p
              l (ground (arith, h, q)) s
        | inr q ↦
            let out : release_slot slot (count_drop d) ≡ e = ground (arith, h, q) in
            subst (λ x. IsSettled (record x { pending = false }) sent) out
              (returned-IsSettled slot damage (count_drop d) sent p l
                (kept-IsSettled d (count_drop d) sent refl refl refl refl s))
      ]

  publish_bound-IsSettled :
      (slot : ℕ) (damage : List Rect) (free : List ℕ) (d e : StreamData) (forward : Bool)
      (pool : Option ℕ) (sent : List ℕ)
      → d.pending ≡ true
      → d.latest ≡ some (of_slot slot damage)
      → slot < length d.transport.slot_bindings
      → publish_bound files memory slot free d forward pool ≡ some e
      → IsSettled d sent
      → IsSettled (record e { pending = false }) sent
  publish_bound-IsSettled slot damage free d e true (some raw) sent p l bound h s =
      let out : forward_slot slot raw d ≡ e = ground (arith, h) in
      subst (λ x. IsSettled (record x { pending = false }) sent) out
        (forwarded-IsSettled slot raw damage d sent p l bound s)
  publish_bound-IsSettled slot damage free d e true none sent p l bound h s =
      publish_unbound-IsSettled slot damage free d e sent p l h s
  publish_bound-IsSettled slot damage free d e false none sent p l bound h s =
      publish_unbound-IsSettled slot damage free d e sent p l h s
  publish_bound-IsSettled slot damage free d e false (some raw) sent p l bound h s =
      publish_unbound-IsSettled slot damage free d e sent p l h s

  publish_slot-IsSettled :
      (slot : ℕ) (damage : List Rect) (free : List ℕ) (d e : StreamData) (sent : List ℕ)
      → d.pending ≡ true
      → d.latest ≡ some (of_slot slot damage)
      → publish_slot files memory slot free d ≡ some e
      → IsSettled d sent
      → IsSettled (record e { pending = false }) sent
  unfolding publish_slot
  publish_slot-IsSettled slot damage free d e sent p l h s =
      let waits : waiting slot d ≡ true =
        ground (arith, p, ap (names_slot slot) l, (==_iff slot slot).1 refl) in
      let bound : slot < length d.transport.slot_bindings =
        omega (arith, s.within slot waits, s.sized) in
      elim (Option-cases (get_elem? d.transport.slot_bindings slot)) [
        | inl q ↦ absurd (get_elem?-length d.transport.slot_bindings slot bound q)
        | inr (b, q) ↦
            let rests : b.in_flight ≡ false =
              ground
                (arith, waits, s.once slot, flying-get_elem? d.transport.slot_bindings slot b q) in
            publish_bound-IsSettled slot damage free d e (forwarding_eligible d.negotiation) b.pool
              sent p l bound (ground (arith, h, q, rests)) s
      ]

  publish_frame-IsSettled :
      (free : List ℕ) (d e : StreamData) (l : Option FramePayload) (sent : List ℕ)
      → d.pending ≡ true
      → d.latest ≡ l
      → publish_frame files memory free d l ≡ some e
      → IsSettled d sent
      → IsSettled e sent
  publish_frame-IsSettled free d e none sent p l h s =
      let out : record d { pending = false } ≡ e = ground (arith, h) in
      subst (λ x. IsSettled x sent) out (idle-IsSettled d sent (λ j. ap (names_slot j) l) s)
  publish_frame-IsSettled free d e (some (descriptor file stride damage)) sent p l h s =
      let copy =
        copy_into_pool memory (files file) stride d.transport.width d.transport.height free d in
      elim (Option-cases copy) [
        | inl q ↦ absurd (ground (arith, h, q))
        | inr (c, q) ↦
            let k =
              copy_into_pool-IsKept memory (files file) stride d.transport.width d.transport.height
                free d c q in
            let settled = IsKept-whole d sent c.after k s in
            elim (Bool-cases c.taken) [
              | inl t ↦
                  let out : record (c.after) { pending = false } ≡ e = ground (arith, h, q, t) in
                  subst (λ x. IsSettled x sent) out
                    (idle-IsSettled c.after sent (λ j. ap (names_slot j) (k.1 ∙ l)) settled)
              | inr t ↦
                  let out : c.after ≡ e = ground (arith, h, q, t) in
                  subst (λ x. IsSettled x sent) out settled
            ]
      ]
  publish_frame-IsSettled free d e (some (of_slot slot damage)) sent p l h s =
      elim (Option-cases (publish_slot files memory slot free d)) [
        | inl q ↦ absurd (ground (arith, h, q))
        | inr (f, q) ↦
            let out : record f { pending = false } ≡ e = ground (arith, h, q) in
            subst (λ x. IsSettled x sent) out
              (publish_slot-IsSettled slot damage free d f sent p l q s)
      ]

  pub process_frame-IsSettled :
      (returned free : List ℕ) (d e : StreamData) (sent : List ℕ)
      → process_frame files memory returned free d ≡ some e
      → IsSettled d sent
      → IsSettled e sent
  unfolding process_frame
  process_frame-IsSettled returned free d e sent h s =
      let back = reclaim_returned_buffers returned d in
      let settled = reclaim-IsSettled returned d sent s in
      elim (Bool-cases back.pending) [
        | inr q ↦
            let out : back ≡ e = ground (arith, h, q) in subst (λ x. IsSettled x sent) out settled
        | inl q ↦
            publish_frame-IsSettled free back e back.latest sent q refl (ground (arith, h, q))
              settled
      ]
