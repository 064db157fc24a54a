-- ===== src/Text/Decimal.antt =====
-- Decimal numbers: `to_string` and `parse` of the unsigned 32-bit integers.
use sentinel_cosmic.Common.{
  Bool, zero, ◌+◌, true, ◌&&◌, ◌≡◌, ◌-◌, none, ◌/◌, ◌∷◌, if◌then◌else◌, ◌<◌, All, ◌*◌, ◌≢◌, ◌%◌,
  ◌>>=◌, ℕ, ltb, [], suc, some, leb, ◌==◌, arith, Option, false, refl, ◌≤◌,
}
use sentinel_cosmic.Text.{Text}

-- The digits of `n` before `out`; `fuel` bounds their number.
unfoldable pub digits : ℕ → ℕ → Text → Text
digits zero n out = out
digits (suc fuel) n out =
    let rest = digits fuel (n / 10) ((b'0' + n % 10) ∷ out) in
    if ltb n 10 then (b'0' + n) ∷ out else rest

-- `n.to_string()`: a number has at most as many digits as one more than its value.
unfoldable pub to_string : ℕ → Text
unfolding digits
to_string n = digits (suc n) n []

abbrev pub is_digit : ℕ → Bool
is_digit c = leb b'0' c && leb c b'9'

-- The number that digits spell behind `n`; `none` on another character.
unfoldable pub read_digits : Text → ℕ → Option ℕ
read_digits [] n = some n
read_digits (c ∷ s) n = if is_digit c then read_digits s (n * 10 + (c - b'0')) else none

unfoldable pub read_number : Text → Option ℕ
unfolding read_digits
read_number [] = none
read_number (c ∷ s) = read_digits (c ∷ s) 0

abbrev pub u32_max : ℕ
u32_max = 4294967295

abbrev fits : ℕ → Option ℕ
fits n = if leb n u32_max then some n else none

-- `s.parse::<u32>()`: a plus sign is allowed, an empty text and an overflow are errors.
unfoldable pub parse_u32 : Text → Option ℕ
unfolding read_number
parse_u32 [] = none
parse_u32 (c ∷ s) = (if c == b'+' then read_number s else read_number (c ∷ s)) >>= fits

-- Integers over the native numbers; `negsuc n` is -(n + 1).
pub data ℤ : Type 0 where
  pos : ℕ → ℤ
  negsuc : ℕ → ℤ

abbrev negated : ℕ → ℤ
negated zero = pos 0
negated (suc n) = negsuc n

-- `n.to_string()` of a signed integer.
abbrev pub show_i32 : ℤ → Text
show_i32 (pos n) = to_string n
show_i32 (negsuc n) = b'-' ∷ to_string (suc n)

-- `s.parse::<i32>()`: one sign is allowed.
unfoldable pub parse_i32 : Text → Option ℤ
unfolding read_number
parse_i32 [] = none
parse_i32 (c ∷ s) =
    if c == b'-'
    then (read_number s >>= λ n. if leb n 2147483648 then some (negated n) else none)
    else ((if c == b'+' then read_number s else read_number (c ∷ s)) >>= λ n.
        if leb n 2147483647 then some (pos n) else none)

-- The values of an i32.
abbrev pub IsI32 : ℤ → Type 0
IsI32 (pos n) = n ≤ 2147483647
IsI32 (negsuc n) = n ≤ 2147483647

-- Reading the digits that were put before `out` gives `n` back, and goes on with `out`.
read_digits-digits :
    (fuel n : ℕ) (out : Text) → n < fuel → read_digits (digits fuel n out) 0 ≡ read_digits out n
unfolding digits read_digits
read_digits-digits zero n out h = absurd (omega arith)
read_digits-digits (suc fuel) n out h =
    ground (arith, read_digits-digits fuel (n / 10) ((b'0' + n % 10) ∷ out))

pub read_digits-to_string : (n : ℕ) → read_digits (to_string n) 0 ≡ some n
unfolding to_string read_digits
read_digits-to_string n = read_digits-digits (suc n) n [] (omega arith)

-- Two numbers that print alike are equal.
pub to_string_inj : (m n : ℕ) → to_string m ≡ to_string n → m ≡ n
to_string_inj m n e = cc (read_digits-to_string m, read_digits-to_string n)

abbrev pub Digits : Text → Type 0
Digits = All (λ c. is_digit c ≡ true)

digits-Digits : (fuel n : ℕ) (out : Text) → Digits out → Digits (digits fuel n out)
unfolding digits
digits-Digits zero n out h = h
digits-Digits (suc fuel) n out h =
    ground (arith, digits-Digits fuel (n / 10) ((b'0' + n % 10) ∷ out))

pub to_string-Digits : (n : ℕ) → Digits (to_string n)
unfolding to_string
to_string-Digits n = digits-Digits (suc n) n [] tt

digits-ne-nil : (fuel n : ℕ) (c : ℕ) (out : Text) → digits fuel n (c ∷ out) ≢ []
unfolding digits
digits-ne-nil zero n c out = λ e. cc
digits-ne-nil (suc fuel) n c out =
    ground (arith, digits-ne-nil fuel (n / 10) (b'0' + n % 10) (c ∷ out))

pub to_string-ne-nil : (n : ℕ) → to_string n ≢ []
unfolding to_string digits
to_string-ne-nil n = ground (arith, digits-ne-nil n (n / 10) (b'0' + n % 10) [])

Digits-parse_i32 :
    (n : ℕ) (s : Text)
    → Digits s
    → s ≢ []
    → read_digits s 0 ≡ some n
    → n ≤ 2147483647
    → parse_i32 s ≡ some (pos n)
unfolding parse_i32 read_number
Digits-parse_i32 n [] ds ne e h = absurd (ne refl)
Digits-parse_i32 n (c ∷ s) (d, ds) ne e h =
    let no_minus : (c == b'-') ≡ false = ground (arith, d) in
    let no_plus : (c == b'+') ≡ false = ground (arith, d) in
    let in_range : leb n 2147483647 ≡ true = ground (arith, h) in
    rw (no_minus, no_plus, e, in_range) refl

read_number-digits : (n : ℕ) (s : Text) → s ≢ [] → read_digits s 0 ≡ some n → read_number s ≡ some n
unfolding read_number
read_number-digits n [] ne e = absurd (ne refl)
read_number-digits n (c ∷ s) ne e = e

-- Every i32 is read back from what it is printed as.
pub parse_i32-show_i32 : (z : ℤ) → IsI32 z → parse_i32 (show_i32 z) ≡ some z
unfolding parse_i32
parse_i32-show_i32 (pos n) h =
    Digits-parse_i32 n (to_string n) (to_string-Digits n) (to_string-ne-nil n)
      (read_digits-to_string n) h
parse_i32-show_i32 (negsuc n) h =
    let in_range : leb (suc n) 2147483648 ≡ true = ground (arith, h) in
    rw
      (
        read_number-digits (suc n) (to_string (suc n)) (to_string-ne-nil (suc n))
            (read_digits-to_string (suc n)),
        in_range,
      )
      refl
