-- ===== src/Pam/Utf8.antt =====
-- `str::from_utf8`: reading a text from bytes, none where they are no UTF-8.
-- The bytes that are still due, the value so far, and the range of the next byte.
use sentinel_cosmic.Common.{
  leb, some, Option, map_option, ◌*◌, All, zero, refl, ℕ, ltb, if◌then◌else◌, ◌==◌, ◌&&◌, none, ◌∷◌,
  ◌-◌, [], suc, ◌≡◌, List, ◌<◌, ◌+◌, arith, true,
}
use sentinel_cosmic.Text.{Text}

unfoldable pub decode : ℕ → ℕ → ℕ → ℕ → List ℕ → Option Text
decode zero value low high [] = some []
decode (suc due) value low high [] = none
decode zero value low high (b ∷ bs) =
    let one = decode 0 0 0 0 bs in
    let two = decode 1 (b - 192) 128 191 bs in
    let three =
      decode 2 (b - 224) (if b == 224 then 160 else 128) (if b == 237 then 159 else 191) bs in
    let four =
      decode 3 (b - 240) (if b == 240 then 144 else 128) (if b == 244 then 143 else 191) bs in
    if ltb b 128
    then map_option (◌∷◌ b) one
    else if ltb b 194
    then none
    else if ltb b 224
    then two
    else if ltb b 240
    then three
    else if ltb b 245
    then four
    else none
decode (suc due) value low high (b ∷ bs) =
    let value' = value * 64 + (b - 128) in
    let rest = decode due value' 128 191 bs in
    if leb low b && leb b high
    then elim due [ zero ↦ map_option (◌∷◌ value') rest | suc _ ↦ rest ]
    else none

unfoldable pub from_utf8 : List ℕ → Option Text
unfolding decode
from_utf8 bs = decode 0 0 0 0 bs

abbrev pub Ascii : Text → Type 0
Ascii s = All (λ c. c < 128) s

decode-Ascii : (s : Text) → Ascii s → decode 0 0 0 0 s ≡ some s
unfolding decode
decode-Ascii [] h = refl
decode-Ascii (c ∷ t) (lt, h) =
    let e : ltb c 128 ≡ true = ground (arith, lt) in rw (e, decode) (rw (decode-Ascii t h))

-- An ASCII text is its own bytes.
pub from_utf8-Ascii : (s : Text) → Ascii s → from_utf8 s ≡ some s
unfolding from_utf8
from_utf8-Ascii s h = decode-Ascii s h
