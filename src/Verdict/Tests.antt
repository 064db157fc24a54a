-- ===== src/Verdict/Tests.antt =====
-- Tests of the verdict line, and the theorems of Wire at concrete lines.
use sentinel_cosmic.Common.{false, true, refl, some, none, ◌≡◌}
use sentinel_cosmic.Text.{codes, Text}
use sentinel_cosmic.Verdict.{timeout, Verdict, allow, parse_verdict, deny, exit_code}

old_helper : parse_verdict (codes "  DENY\n") ≡ some (record { outcome = deny; remember = false })
unfolding parse_verdict
old_helper = refl

lower_case : parse_verdict (codes "allow") ≡ none
unfolding parse_verdict
lower_case = refl

no_words : parse_verdict (codes " ") ≡ none
unfolding parse_verdict
no_words = refl

codes_agree : (exit_code allow ≡ 0) × (exit_code timeout ≡ 1)
unfolding exit_code
codes_agree = (refl, refl)

abbrev ticked : Verdict
ticked = record { outcome = deny; remember = true }

abbrev line : Text
line = codes "ALLOW  REMEMBER"
