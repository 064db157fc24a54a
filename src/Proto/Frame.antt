-- ===== src/Proto/Frame.antt =====
-- crates/sentinel-broker-proto/src/lib.rs: `write_frame` and `read_frame`.
-- The codec, postcard, is a parameter. A writer takes the bytes that it has room for.
pub mod Laws
use sentinel_cosmic.Common.{
  ◌+◌, suc, ◌++◌, ℕ, true, some, ◌∷◌, Bool, none, not, zero, ◌-◌, ◌*◌, List, map_option,
  if◌then◌else◌, leb, Option, ◌%◌, false, length, ◌/◌, take, [], ltb,
}

pub data ProtoError : Type 0 where
  too_large : ℕ → ProtoError
  encode_error : ProtoError
  decode_error : ProtoError
  io_error : ProtoError

pub data Result {ℓ} (A : Type ℓ) : Type ℓ where
  ok : A → Result A
  err : ProtoError → Result A

abbrev pub Bytes : Type 0
Bytes = List ℕ

abbrev pub max_frame_len : ℕ
max_frame_len = 65536

-- `(n as u32).to_le_bytes()`.
abbrev pub to_le_bytes : ℕ → Bytes
to_le_bytes n = n % 256 ∷ n / 256 % 256 ∷ n / 65536 % 256 ∷ n / 16777216 % 256 ∷ []

-- `postcard::to_allocvec` and `postcard::from_bytes` for one type of messages.
pub record Codec (T : Type 0) : Type 0 where
  pub to_allocvec : T → Option Bytes
  pub from_bytes : Bytes → Option T

pub record Writer : Type 0 where
  pub sent : Bytes
  pub room : ℕ

-- `w.write_all(b)`: where the room ends the write fails, behind what went out.
unfoldable pub write_all : Writer → Bytes → Writer × Bool
write_all w b =
    if leb (length b) w.room
    then (record { sent = w.sent ++ b; room = w.room - length b }, true)
    else (record { sent = w.sent ++ take w.room b; room = 0 }, false)

-- A reader: the bytes that will come, and how many were allocated for a body.
pub record Reader : Type 0 where
  pub input : Bytes
  pub allocated : ℕ

unfoldable pub read_exact : ℕ → Bytes → Option (Bytes × Bytes)
read_exact zero s = some ([], s)
read_exact (suc n) [] = none
read_exact (suc n) (b ∷ s) = map_option (λ (r : Bytes × Bytes). (b ∷ r.0, r.1)) (read_exact n s)

module _ {T : Type 0} (codec : Codec T) where
  unfoldable pub write_body : Writer → Bytes → Writer × Result (Unit {0})
  unfolding write_all
  write_body w body =
      if ltb max_frame_len (length body)
      then (w, err (too_large (length body)))
      else (let (w', head_sent) = write_all w (to_le_bytes (length body)) in
          if not head_sent
          then (w', err io_error)
          else (let (w'', body_sent) = write_all w' body in
              (w'', if body_sent then ok tt else err io_error)))

  unfoldable pub write_frame : Writer → T → Writer × Result (Unit {0})
  unfolding write_body
  write_frame w msg = elim (codec.to_allocvec msg) [
    | none ↦ (w, err encode_error)
    | some body ↦ write_body w body
  ]

  decode : Bytes → Result T
  decode body = elim (codec.from_bytes body) [ none ↦ err decode_error | some msg ↦ ok msg ]

  unfoldable pub read_body : Reader → ℕ → Reader × Result T
  unfolding read_exact decode
  read_body r len =
      if ltb max_frame_len len then (r, err (too_large len)) else elim (read_exact len r.input) [
        | none ↦ (record { input = []; allocated = r.allocated + len }, err io_error)
        | some (body, rest) ↦ (record { input = rest; allocated = r.allocated + len }, decode body)
      ]

  -- The length: four bytes, little endian.
  unfoldable pub read_header : Reader → Bytes → Reader × Result T
  unfolding read_body
  read_header r (a ∷ b ∷ c ∷ d ∷ rest) =
      read_body (record r { input = rest }) (a + 256 * b + 65536 * c + 16777216 * d)
  read_header r _ = (record r { input = [] }, err io_error)

  unfoldable pub read_frame : Reader → Reader × Result T
  unfolding read_header
  read_frame r = read_header r r.input
