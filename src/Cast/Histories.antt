-- ===== src/Cast/Histories.antt =====
-- cast: every history of one compositor stream, and what a republished slot frame does to it.
use xdg_desktop_portal_aegis.Prelude.{
  ℕ, ◌≡◌, refl, ap, ◌∙◌, inl, inr, true, false, Option, some, List, [], ◌∷◌, is_empty, is_some,
  Bool-cases, arith,
}
use xdg_desktop_portal_aegis.Cast.Meta.{Rect}
use xdg_desktop_portal_aegis.Cast.Frame.{FramePayload, of_slot}
use xdg_desktop_portal_aegis.Cast.Copy.{Bytes}
use xdg_desktop_portal_aegis.Cast.Transport.{StreamData, release_superseded, replace_latest}
use xdg_desktop_portal_aegis.Cast.Publish.{FileView, flying}
use xdg_desktop_portal_aegis.Cast.Slots.{process_frame, on_streaming, add_buffer, remove_buffer}
use xdg_desktop_portal_aegis.Cast.Ownership.{
  names_slot, IsSettled, IsOwn, adds, release_slot_table, IsSettled-step, replace_latest-IsSettled,
}
use xdg_desktop_portal_aegis.Cast.Reclaimed.{add_buffer-IsSettled, remove_buffer-IsSettled}
use xdg_desktop_portal_aegis.Cast.Processed.{process_frame-IsSettled}

-- One event of the cast's main loop, with the slots of the frames that the compositor has sent. The
-- compositor fills a slot only while it owns it. A frame is published again on the way to
-- Streaming only if it waits anyway or names no slot.
pub data Event (d : StreamData) (sent : List ℕ) : StreamData → List ℕ → Type 0 where
  arrives :
      (payload : FramePayload)
      → IsOwn payload d
      → Event d sent (replace_latest payload d) (adds payload sent)
  processes :
      (files : ℕ → FileView) (memory : ℕ → Option Bytes) (returned free : List ℕ) {e : StreamData}
      → process_frame files memory returned free d ≡ some e
      → Event d sent e sent
  binds : (raw : ℕ) → Event d sent (add_buffer raw d) sent
  unbinds : (raw : ℕ) → Event d sent (remove_buffer raw d) sent
  streams :
      ((slot : ℕ) → names_slot slot d.latest ≡ true → d.pending ≡ true)
      → Event d sent (on_streaming d) sent

pub data Reaches (d : StreamData) : StreamData → List ℕ → Type 0 where
  here : Reaches d d []
  next :
      {e f : StreamData} {sent more : List ℕ}
      → Reaches d e sent
      → Event e sent f more
      → Reaches d f more

on_streaming-IsSettled :
    (d : StreamData) (sent : List ℕ)
    → ((slot : ℕ) → names_slot slot d.latest ≡ true → d.pending ≡ true)
    → IsSettled d sent
    → IsSettled (on_streaming d) sent
unfolding on_streaming
on_streaming-IsSettled d sent waits s = elim (Bool-cases (is_some d.latest)) [
  | inr q ↦ rw q s
  | inl q ↦ rw q (
      IsSettled-step d (record d { pending = true }) sent sent s refl refl refl
        (λ j h. s.within j (ground (arith, h, waits j))) (λ j. ground (arith, waits j, s.once j))
        (λ j. ground (arith, waits j)))
]

Event-IsSettled :
    {d e : StreamData} {sent more : List ℕ}
    → IsSettled d sent
    → Event d sent e more
    → IsSettled e more
Event-IsSettled {d} {e} {sent} s (arrives payload own) =
    replace_latest-IsSettled payload d sent own s
Event-IsSettled {d} {e} {sent} s (processes files memory returned free h) =
    process_frame-IsSettled files memory returned free d e sent h s
Event-IsSettled {d} {e} {sent} s (binds raw) = add_buffer-IsSettled raw d sent s
Event-IsSettled {d} {e} {sent} s (unbinds raw) = remove_buffer-IsSettled raw d sent s
Event-IsSettled {d} {e} {sent} s (streams waits) = on_streaming-IsSettled d sent waits s

-- This holds in every history of one slot stream in which frames arrive, cycles run, buffers come
-- and go and the stream pauses and resumes, if the stream starts with a slot table, a binding for
-- each slot, nothing released and nothing owed, if the compositor sends a frame only in a slot of
-- the table for which no release is owed then, and if the stream resumes only where the latest
-- frame waits to be published or names no slot: for each slot, the frames that the compositor sent
-- in it are as many as its releases and, where its frame waits to be published or its buffer is
-- with the consumer, the one release that is owed; and only a slot of the table waits.
pub Reaches-IsSettled :
    {d e : StreamData} {sent : List ℕ} → IsSettled d [] → Reaches d e sent → IsSettled e sent
Reaches-IsSettled s here = s
Reaches-IsSettled s (next run event) = Event-IsSettled (Reaches-IsSettled s run) event

-- Where the stream resumes while the latest frame is a slot frame whose buffer is with the consumer,
-- the next frame releases that slot although the consumer still has its buffer.
pub on_streaming-replace_latest :
    (d : StreamData) (slot : ℕ) (damage : List Rect) (payload : FramePayload)
    → d.latest ≡ some (of_slot slot damage)
    → flying d.transport.slot_bindings slot ≡ true
    → is_empty d.transport.slot_files ≡ false
    → ((replace_latest payload (on_streaming d)).releases
        ≡ ((d.transport.stream_id, slot) ∷ d.releases))
      × (flying (replace_latest payload (on_streaming d)).transport.slot_bindings slot ≡ true)
unfolding replace_latest on_streaming
on_streaming-replace_latest d slot damage payload l f t =
    let again : StreamData = record d { pending = true } in
    let resumed : on_streaming d ≡ again = ground (arith, ap is_some l) in
    let out : release_superseded again.pending again.latest again
        ≡ record again { releases = (d.transport.stream_id, slot) ∷ d.releases } =
      ap (λ o. release_superseded true o again) l ∙ release_slot_table slot again t in
    let both : release_superseded (on_streaming d).pending (on_streaming d).latest (on_streaming d)
        ≡ record again { releases = (d.transport.stream_id, slot) ∷ d.releases } =
      ap (λ x. release_superseded x.pending x.latest x) resumed ∙ out in
    (ap (λ x. x.releases) both, ap (λ x. flying x.transport.slot_bindings slot) both ∙ f)
