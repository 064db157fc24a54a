-- ===== src/Proto/Tests.antt =====
-- Tests of the frames, with a codec for texts that are their own encoding.
use sentinel_cosmic.Common.{◌∷◌, length, ◌+◌, sym, some, [], ◌++◌, ℕ, refl, ◌≡◌, ◌≤◌}
use sentinel_cosmic.Proto.Frame.{
  err, Bytes, read_frame, max_frame_len, io_error, Writer, Reader, write_frame, ok, Codec,
}
use sentinel_cosmic.Proto.Frame.Laws.{read_frame-write_frame, frame_of, read_frame_bounded}

abbrev plain_codec : Codec Bytes
plain_codec = record { to_allocvec = λ b. some b; from_bytes = λ b. some b }

abbrev roomy : Writer
roomy = record { sent = []; room = 100 }

framed : (write_frame plain_codec roomy (7 ∷ 8 ∷ [])).0.sent ≡ 2 ∷ 0 ∷ 0 ∷ 0 ∷ 7 ∷ 8 ∷ []
unfolding write_frame
framed = refl

cut_off :
    (read_frame plain_codec (record { input = 9 ∷ 0 ∷ 0 ∷ 0 ∷ 7 ∷ []; allocated = 0 })).1
    ≡ err io_error
unfolding read_frame
cut_off = refl

read_frame-write_frame_example :
    (body : Bytes) × ((write_frame plain_codec roomy (7 ∷ [])).0.sent ≡ [] ++ frame_of body)
    × (length body ≤ max_frame_len)
    × ((rest : Bytes) (a : ℕ)
        → read_frame plain_codec (record { input = frame_of body ++ rest; allocated = a })
          ≡ (record { input = rest; allocated = a + length body }, ok (7 ∷ [])))
unfolding write_frame
read_frame-write_frame_example =
    read_frame-write_frame plain_codec (λ m b e. sym e) roomy (7 ∷ []) refl

abbrev huge : Reader
huge = record { input = 0 ∷ 0 ∷ 0 ∷ 255 ∷ 1 ∷ []; allocated = 0 }

read_frame_bounded_example : (read_frame plain_codec huge).0.allocated ≤ 0 + max_frame_len
read_frame_bounded_example = read_frame_bounded plain_codec huge
