-- ===== src/Proto/Frame/Laws.antt =====
-- Frames: what is written is read back, and how much a reader allocates.
use sentinel_cosmic.Common.{
  refl, ◌+◌, append_assoc, some, inl, ℕ, ◌≡◌, ◌%◌, ltb, ◌/◌, ◌<◌, ◌∷◌, arith, [], length,
  Option-cases, Bool-cases, inr, ◌*◌, ◌≤◌, ◌++◌, ◌∙◌, ap,
}
use sentinel_cosmic.Proto.Frame.{
  to_le_bytes, Codec, Reader, write_body, read_header, write_all, Bytes, max_frame_len, read_body,
  too_large, ok, write_frame, err, read_exact, Writer, read_frame, decode,
}

pub read_exact-append : (b rest : Bytes) → read_exact (length b) (b ++ rest) ≡ some (b, rest)
unfolding read_exact
read_exact-append [] rest = refl
read_exact-append (x ∷ b) rest = rw (read_exact-append b rest)

-- The four bytes of a length below 2^32 spell that length.
le_bytes_value :
    (n : ℕ)
    → n < 4294967296
    → n % 256 + 256 * (n / 256 % 256) + 65536 * (n / 65536 % 256) + 16777216 * (n / 16777216 % 256)
      ≡ n
le_bytes_value n h = omega arith

abbrev pub frame_of : Bytes → Bytes
frame_of body = to_le_bytes (length body) ++ body

module _ {T : Type 0} (codec : Codec T) where
  read_body_frame :
      (body rest : Bytes) (a : ℕ) (msg : T)
      → length body ≤ max_frame_len
      → codec.from_bytes body ≡ some msg
      → read_body codec (record { input = body ++ rest; allocated = a }) (length body)
        ≡ (record { input = rest; allocated = a + length body }, ok msg)
  unfolding read_body decode
  read_body_frame body rest a msg fits e = elim (Bool-cases (ltb max_frame_len (length body))) [
    | inl big ↦ absurd (ground (arith, big, fits))
    | inr small ↦ rw (small, read_exact-append body rest) (rw (e, decode) refl)
  ]

  pub read_frame-frame_of :
      (body rest : Bytes) (a : ℕ) (msg : T)
      → length body ≤ max_frame_len
      → codec.from_bytes body ≡ some msg
      → read_frame codec (record { input = frame_of body ++ rest; allocated = a })
        ≡ (record { input = rest; allocated = a + length body }, ok msg)
  unfolding read_frame
  read_frame-frame_of body rest a msg fits e =
      ap (read_body codec (record { input = body ++ rest; allocated = a }))
        (le_bytes_value (length body) (omega arith))
      ∙ read_body_frame body rest a msg fits e

  write_body_sent :
      (w : Writer) (body : Bytes)
      → (write_body codec w body).1 ≡ ok tt
      → ((write_body codec w body).0.sent ≡ w.sent ++ frame_of body) × (length body ≤ max_frame_len)
  unfolding write_body write_all
  write_body_sent w body h = ground (arith, h, append_assoc w.sent (to_le_bytes (length body)) body)

  -- A message that was written without an error stands in the output as one frame, and whoever reads
  -- that frame gets the message and the bytes behind it, with a body of at most 64 KiB allocated, if
  -- the codec decodes what it encodes.
  pub read_frame-write_frame :
      ((m : T) (b : Bytes) → codec.to_allocvec m ≡ some b → codec.from_bytes b ≡ some m)
      → (w : Writer) (msg : T) → (write_frame codec w msg).1 ≡ ok tt
      → (body : Bytes) × ((write_frame codec w msg).0.sent ≡ w.sent ++ frame_of body)
        × (length body ≤ max_frame_len)
        × ((rest : Bytes) (a : ℕ)
            → read_frame codec (record { input = frame_of body ++ rest; allocated = a })
              ≡ (record { input = rest; allocated = a + length body }, ok msg))
  unfolding write_frame
  read_frame-write_frame lawful w msg h = elim (Option-cases (codec.to_allocvec msg)) [
    | inl e ↦ absurd (ground (arith, e, h))
    | inr (body, e) ↦
        let (sent, fits) = write_body_sent w body (rw (e, write_frame) at h) in
        (
          body,
          rw (e, write_frame) sent,
          fits,
          λ rest a. read_frame-frame_of body rest a msg fits (lawful msg body e),
        )
  ]

  -- A body that is too large is refused before a byte goes out.
  pub write_frame_too_large :
      (w : Writer) (msg : T) (body : Bytes)
      → codec.to_allocvec msg ≡ some body
      → max_frame_len < length body
      → write_frame codec w msg ≡ (w, err (too_large (length body)))
  unfolding write_frame write_body
  write_frame_too_large w msg body e big = rw (e, write_frame) (ground (arith, big))

  read_body_bounded :
      (r : Reader) (len : ℕ) → (read_body codec r len).0.allocated ≤ r.allocated + max_frame_len
  unfolding read_body
  read_body_bounded r len = ground arith

  read_header_bounded :
      (r : Reader) (s : Bytes) → (read_header codec r s).0.allocated ≤ r.allocated + max_frame_len
  unfolding read_header
  read_header_bounded r [] = omega arith
  read_header_bounded r (a ∷ []) = omega arith
  read_header_bounded r (a ∷ b ∷ []) = omega arith
  read_header_bounded r (a ∷ b ∷ c ∷ []) = omega arith
  read_header_bounded r (a ∷ b ∷ c ∷ d ∷ s) =
      read_body_bounded (record r { input = s }) (a + 256 * b + 65536 * c + 16777216 * d)

  -- Whatever bytes a peer sends, reading a frame allocates at most 64 KiB for its body.
  pub read_frame_bounded :
      (r : Reader) → (read_frame codec r).0.allocated ≤ r.allocated + max_frame_len
  unfolding read_frame
  read_frame_bounded r = read_header_bounded r r.input

  -- A length over the limit is refused at once: nothing is allocated and no byte of a body is read.
  pub read_frame_too_large :
      (r : Reader) (a b c d : ℕ) (rest : Bytes)
      → r.input ≡ a ∷ b ∷ c ∷ d ∷ rest
      → max_frame_len < a + 256 * b + 65536 * c + 16777216 * d
      → read_frame codec r
        ≡ (record r { input = rest }, err (too_large (a + 256 * b + 65536 * c + 16777216 * d)))
  unfolding read_frame read_header read_body
  read_frame_too_large r a b c d rest e big = rw (e, read_header) (ground (arith, big))
