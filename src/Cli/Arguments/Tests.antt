-- ===== src/Cli/Arguments/Tests.antt =====
-- Tests of the dialog's arguments.
use sentinel_cosmic.Cli.Arguments.{
  is_given, parse_unsigned, value_of, number, optional_number, from_matches, plain,
}
use sentinel_cosmic.Common.{map_option, [], ◌≡◌, some, refl, ◌∷◌, none, false}
use sentinel_cosmic.Text.{codes, text_eq}
use sentinel_cosmic.Text.Decimal.{read_digits, read_number, negsuc, parse_i32, show_i32}

no_arguments : map_option (λ p. p.0.timeout) (from_matches []) ≡ some 30
unfolding from_matches number optional_number value_of is_given
no_arguments = refl

beyond_u32 :
    map_option
      (λ p. p.0.timeout)
      (from_matches ((codes "--remember-secs", some (codes "4294967296")) ∷ []))
    ≡ none
unfolding from_matches number optional_number value_of is_given text_eq parse_unsigned read_number
    read_digits
beyond_u32 = refl

-- A negative pid is read where it is given, but its text begins with a hyphen.
negative_pid : parse_i32 (codes "-1") ≡ some (negsuc 0)
unfolding parse_i32 read_number read_digits
negative_pid = refl

negative_not_plain : plain (show_i32 (negsuc 0)) ≡ false
negative_not_plain = refl
