-- ===== src/Cli/Arguments/Numbers.antt =====
-- Numbers that are printed for the dialog and read back by it.
use sentinel_cosmic.Cli.Arguments.{Given, parse_unsigned, value_of, number, optional_number, plain}
use sentinel_cosmic.Common.{
  ◌≡◌, ◌≢◌, arith, ap, Option, map_option, leb, ℕ, [], some, true, false, ◌≤◌, ◌==◌, ◌∷◌, none,
  refl,
}
use sentinel_cosmic.Text.{Text}
use sentinel_cosmic.Text.Decimal.{
  Digits, to_string, read_digits-to_string, read_number, read_digits, to_string-ne-nil,
  to_string-Digits, parse_i32-show_i32, ℤ, IsI32, show_i32,
}

Digits-parse_unsigned :
    (upper n : ℕ) (s : Text)
    → Digits s
    → s ≢ []
    → read_digits s 0 ≡ some n
    → n ≤ upper
    → parse_unsigned upper s ≡ some n
unfolding parse_unsigned read_number
Digits-parse_unsigned upper n [] ds ne e h = absurd (ne refl)
Digits-parse_unsigned upper n (c ∷ s) (d, ds) ne e h =
    let no_plus : (c == b'+') ≡ false = ground (arith, d) in
    let in_range : leb n upper ≡ true = ground (arith, h) in rw (no_plus, e, in_range) refl

-- A number in range is read back.
pub parse_unsigned-to_string :
    (upper n : ℕ) → n ≤ upper → parse_unsigned upper (to_string n) ≡ some n
parse_unsigned-to_string upper n h =
    Digits-parse_unsigned upper n (to_string n) (to_string-Digits n) (to_string-ne-nil n)
      (read_digits-to_string n) h

Digits-plain : (s : Text) → Digits s → plain s ≡ true
Digits-plain [] ds = refl
Digits-plain (c ∷ s) (d, ds) = ground (arith, d)

-- A printed number does not begin with a hyphen.
pub plain-to_string : (n : ℕ) → plain (to_string n) ≡ true
plain-to_string n = Digits-plain (to_string n) (to_string-Digits n)

pub number_read :
    (g : Given) (name : Text) (upper default n : ℕ)
    → value_of g name ≡ some (to_string n)
    → n ≤ upper
    → number g name upper default ≡ some n
unfolding number
number_read g name upper default n e h = rw (number, e) (parse_unsigned-to_string upper n h)

abbrev pub IsI32Option : Option ℤ → Type 0
IsI32Option none = Unit {0}
IsI32Option (some z) = IsI32 z

pub optional_number_read :
    (g : Given) (name : Text) (o : Option ℤ)
    → value_of g name ≡ map_option show_i32 o
    → IsI32Option o
    → optional_number g name ≡ some o
unfolding optional_number
optional_number_read g name none e h = rw (optional_number, e) refl
optional_number_read g name (some z) e h =
    rw (optional_number, e) (ap (λ p. map_option some p) (parse_i32-show_i32 z h))
