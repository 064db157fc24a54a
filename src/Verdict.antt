-- ===== src/Verdict.antt =====
-- crates/sentinel-shared/src/lib.rs: `Outcome` and `Verdict`, the line that the helper writes on its
-- standard output and that the PAM module and the polkit agent read back.
pub mod Wire
pub mod Tests
use sentinel_cosmic.Common.{
  if◌then◌else◌, Bool, Option, map_option, false, List, ◌∷◌, ◌++◌, ℕ, true, [], some, ◌&&◌, none,
  any,
}
use sentinel_cosmic.Text.{codes, Text, split_whitespace, trim, text_eq}

pub data Outcome : Type 0 where
  allow : Outcome
  deny : Outcome
  timeout : Outcome

-- `impl Display for Outcome`.
unfoldable pub show_outcome : Outcome → Text
show_outcome allow = codes "ALLOW"
show_outcome deny = codes "DENY"
show_outcome timeout = codes "TIMEOUT"

-- `impl FromStr for Outcome`.
unfoldable pub parse_outcome : Text → Option Outcome
unfolding trim text_eq
parse_outcome s =
    let t = trim s in
    if text_eq t (codes "ALLOW")
    then some allow
    else if text_eq t (codes "DENY")
    then some deny
    else if text_eq t (codes "TIMEOUT")
    then some timeout
    else none

unfoldable pub exit_code : Outcome → ℕ
exit_code allow = 0
exit_code deny = 1
exit_code timeout = 1

unfoldable pub is_allow : Outcome → Bool
is_allow allow = true
is_allow deny = false
is_allow timeout = false

pub record Verdict : Type 0 where
  pub outcome : Outcome
  pub remember : Bool

abbrev pub remember_token : Text
remember_token = codes "REMEMBER"

-- `impl Display for Verdict`.
unfoldable pub show_verdict : Verdict → Text
unfolding show_outcome is_allow
show_verdict v =
    show_outcome v.outcome
    ++ (if v.remember && is_allow v.outcome then b' ' ∷ remember_token else [])

-- The outcome token and the tokens behind it.
unfoldable pub parse_tokens : List Text → Option Verdict
unfolding parse_outcome text_eq
parse_tokens [] = map_option (λ o. record { outcome = o; remember = false }) (parse_outcome [])
parse_tokens (t ∷ ts) =
    map_option (λ o. record { outcome = o; remember = any (λ u. text_eq u remember_token) ts })
      (parse_outcome t)

-- `impl FromStr for Verdict`.
unfoldable pub parse_verdict : Text → Option Verdict
unfolding parse_tokens split_whitespace
parse_verdict s = parse_tokens (split_whitespace s)
