-- ===== src/Cast/FrameLaws.antt =====
-- cast/frame.rs: what a validated frame and a validated geometry are.
use xdg_desktop_portal_aegis.Prelude.{
  ℕ, ◌*◌, ◌≤◌, ◌<◌, ◌≡◌, ◌↔◌, refl, inl, inr, true, not, ◌&&◌, ◌||◌, Option, none, some, ltb, ◌==◌,
  Bool-cases, ok, bind-inverse, refuse_if, ◌>>◌, ◌⊎◌, arith,
}
use xdg_desktop_portal_aegis.Cast.Format.{
  AnnouncedFormat, shm, dmabuf, StreamPixelFormat, bgra8, rgba8, wire_dmabuf, VideoFormat,
  wrong_geometry, invalid_stride,
}
use xdg_desktop_portal_aegis.Cast.Transport.{mappable}
use xdg_desktop_portal_aegis.Cast.Frame.{
  StreamFrame, StreamPayload, memfd, dmabuf_file, FramePayload, descriptor, of_slot,
  max_frame_bytes, validate_slot, validate_shm, validate_dmabuf, validate_descriptor,
  validate_payload, validate_frame, checked_mul, times_four, within_limit, frame_len, i32_max,
}

-- A payload that the cast can use: a slot of the table, or a file whose pixels the CPU can read.
abbrev pub IsUsable : StreamFrame → AnnouncedFormat → ℕ → FramePayload → Type 0
IsUsable frame announced slots (of_slot slot damage) = slot < slots
IsUsable frame announced slots (descriptor file stride damage) =
    (stride ≡ frame.stride) × (mappable announced ≡ true)

validate_slot-IsUsable :
    (frame : StreamFrame) (announced : AnnouncedFormat) (slot slots : ℕ) (p : FramePayload)
    → validate_slot frame slot slots ≡ ok p
    → IsUsable frame announced slots p
unfolding validate_slot
validate_slot-IsUsable frame announced slot slots (descriptor file stride damage) h =
    absurd (ground (arith, h))
validate_slot-IsUsable frame announced slot slots (of_slot s damage) h =
    let same : slot ≡ s = ground (arith, h) in ground (arith, h, same)

validate_shm-IsUsable :
    (frame : StreamFrame) (file row_bytes : ℕ) (announced : AnnouncedFormat) (slots : ℕ)
    (p : FramePayload)
    → mappable announced ≡ true
    → validate_shm frame file row_bytes ≡ ok p
    → IsUsable frame announced slots p
unfolding validate_shm
validate_shm-IsUsable frame file row_bytes announced slots (of_slot s damage) m h =
    absurd (ground (arith, h))
validate_shm-IsUsable frame file row_bytes announced slots (descriptor f stride damage) m h =
    (ground (arith, h), m)

validate_dmabuf-IsUsable :
    (frame : StreamFrame) (file drm modifier : ℕ) (f : VideoFormat) (slots : ℕ) (p : FramePayload)
    → validate_dmabuf frame file modifier ≡ ok p
    → IsUsable frame (dmabuf drm modifier f) slots p
unfolding validate_dmabuf mappable
validate_dmabuf-IsUsable frame file drm modifier f slots (of_slot s damage) h =
    absurd (ground (arith, h))
validate_dmabuf-IsUsable frame file drm modifier f slots (descriptor g stride damage) h =
    (ground (arith, h), ground (arith, h))

validate_descriptor-IsUsable :
    (frame : StreamFrame) (row_bytes : ℕ) (announced : AnnouncedFormat) (wire : StreamPixelFormat)
    (payload : StreamPayload) (slots : ℕ) (p : FramePayload)
    → validate_descriptor frame row_bytes announced wire payload ≡ ok p
    → IsUsable frame announced slots p
unfolding validate_descriptor mappable
validate_descriptor-IsUsable frame row_bytes (shm f) bgra8 (memfd file) slots p h =
    validate_shm-IsUsable frame file row_bytes (shm f) slots p refl h
validate_descriptor-IsUsable frame row_bytes (shm f) rgba8 (memfd file) slots p h =
    validate_shm-IsUsable frame file row_bytes (shm f) slots p refl h
validate_descriptor-IsUsable frame row_bytes (dmabuf drm modifier f) (wire_dmabuf frame_drm given)
      (dmabuf_file file) slots p h =
    elim (Bool-cases (frame_drm == drm && given == modifier)) [
      | inl e ↦ validate_dmabuf-IsUsable frame file drm modifier f slots p (ground (arith, h, e))
      | inr e ↦ absurd (ground (arith, h, e))
    ]
validate_descriptor-IsUsable frame row_bytes announced wire payload slots p h =
    absurd (ground (arith, h))

validate_payload-IsUsable :
    (frame : StreamFrame) (row_bytes : ℕ) (announced : AnnouncedFormat) (slots : ℕ)
    (slot : Option ℕ) (p : FramePayload)
    → validate_payload frame row_bytes announced slots slot ≡ ok p
    → IsUsable frame announced slots p
validate_payload-IsUsable frame row_bytes announced slots (some slot) p h =
    validate_slot-IsUsable frame announced slot slots p h
validate_payload-IsUsable frame row_bytes announced slots none p h =
    validate_descriptor-IsUsable frame row_bytes announced frame.format frame.payload slots p h

-- A frame that `validate_frame` accepts has the geometry of the stream and rows that fit into its
-- stride, and it names a slot of the table, or brings a file with that stride whose pixels the CPU
-- can read: pixels of a format that cannot be read so never reach the copy.
pub validate_frame-IsUsable :
    (frame : StreamFrame) (width height : ℕ) (announced : AnnouncedFormat) (slots : ℕ)
    (p : FramePayload)
    → validate_frame frame width height announced slots ≡ ok p
    → (frame.width ≡ width)
      × (frame.height ≡ height)
      × (width * 4 ≤ frame.stride)
      × IsUsable frame announced slots p
unfolding validate_frame
validate_frame-IsUsable frame width height announced slots p h =
    let (u, geometry, rest) =
      bind-inverse
        (refuse_if (not (frame.width == width) || not (frame.height == height)) wrong_geometry)
        (λ _. do
          refuse_if (ltb frame.stride (width * 4) || ltb i32_max frame.stride) invalid_stride
          validate_payload frame (width * 4) announced slots frame.slot)
        h in
    let (v, stride, last) =
      bind-inverse
        (refuse_if (ltb frame.stride (width * 4) || ltb i32_max frame.stride) invalid_stride)
        (λ _. validate_payload frame (width * 4) announced slots frame.slot) rest in
    (
      ground (arith, geometry),
      ground (arith, geometry),
      ground (arith, stride),
      validate_payload-IsUsable frame (width * 4) announced slots frame.slot p last,
    )

-- `frame_len` accepts exactly the geometries with at least one pixel and at most 256 MiB of four
-- bytes each, and returns that number of bytes; no product overflows on the way.
pub frame_len_iff :
    (width height bytes : ℕ)
    → (frame_len width height ≡ ok bytes) ↔ (
        (1 ≤ width)
        × (1 ≤ height)
        × (width * height * 4 ≤ max_frame_bytes)
        × (bytes ≡ width * height * 4))
unfolding frame_len
frame_len_iff width height bytes = (accepted, built)
  where
    limits :
        (times_four (checked_mul width height) ≡ none)
        ⊎ (times_four (checked_mul width height) ≡ some (width * height * 4))
    limits = ground arith

    accepted :
        within_limit width height (times_four (checked_mul width height)) ≡ ok bytes
        → (1 ≤ width)
          × (1 ≤ height)
          × (width * height * 4 ≤ max_frame_bytes)
          × (bytes ≡ width * height * 4)
    accepted h = elim limits [
      | inl e ↦ absurd (ground (arith, h, e))
      | inr e ↦
          (ground (arith, h, e), ground (arith, h, e), ground (arith, h, e), ground (arith, h, e))
    ]

    built :
        (1 ≤ width)
          × (1 ≤ height)
          × (width * height * 4 ≤ max_frame_bytes)
          × (bytes ≡ width * height * 4)
        → within_limit width height (times_four (checked_mul width height)) ≡ ok bytes
    built (w, h, small, e) = ground (arith, w, h, small, e)
