-- ===== src/Ipc/Tests.antt =====
-- Examples of frames.
use xdg_desktop_portal_aegis.Prelude.{some, ◌∷◌, ◌++◌, ◌≡◌, refl, codes, ok, sym}
use xdg_desktop_portal_aegis.Ipc.Codec.{Bytes, Json, to_le_bytes, write_msg, read_msg}
use xdg_desktop_portal_aegis.Ipc.CodecLaws.{read_msg-write_msg}

-- Messages that are their own text.
abbrev plain : Json Bytes
plain = record {
  to_vec = λ bs. some bs;
  from_slice = λ bs. some bs;
  from_slice-to_vec = λ a bs e. sym e;
}

abbrev hello : Bytes
hello = codes "hello"

abbrev frame : Bytes
frame = 5 ∷ 0 ∷ 0 ∷ 0 ∷ codes "hello"

written : write_msg plain hello ≡ ok frame
unfolding write_msg to_le_bytes
written = refl

read_msg-write_msg_example : read_msg plain (frame ++ codes "next") ≡ ok (hello, codes "next")
read_msg-write_msg_example = read_msg-write_msg plain hello frame (codes "next") written
