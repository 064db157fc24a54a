-- ===== src/Pam/Locale.antt =====
-- crates/pam-sentinel/src/locale.rs: the locale variables that the dialog's process inherits.
pub mod Safe
use sentinel_cosmic.Common.{
  some, Option, ℕ, ltb, if◌then◌else◌, Bool, ◌==◌, none, ◌∷◌, false, ◌||◌, [], List, all,
}
use sentinel_cosmic.Procfs.{read_environ_var, Proc}
use sentinel_cosmic.Text.{Text, utf8_len, is_ascii_alphanumeric, codes, is_empty}

abbrev pub forwarded_vars : List Text
forwarded_vars = codes "LC_ALL" ∷ codes "LC_MESSAGES" ∷ codes "LANG" ∷ []

abbrev pub locale_char : ℕ → Bool
locale_char c = is_ascii_alphanumeric c || (c == b'.' || (c == b'_' || (c == b'@' || c == b'-')))

-- `is_safe_locale_value`. A length is in bytes.
unfoldable pub is_safe_locale_value : Text → Bool
unfolding is_ascii_alphanumeric utf8_len
is_safe_locale_value value =
    if is_empty value || ltb 32 (utf8_len value) then false else all locale_char value

abbrev forward : Text → Option Text → List (Text × Text) → List (Text × Text)
forward var none out = out
forward var (some value) out = if is_safe_locale_value value then (var, value) ∷ out else out

-- The loop over the variables; the map is a list with one pair per variable at most.
unfoldable pub collect_locale : Proc → ℕ → List Text → List (Text × Text)
unfolding read_environ_var is_safe_locale_value
collect_locale proc pid [] = []
collect_locale proc pid (var ∷ vars) =
    forward var (read_environ_var proc pid var) (collect_locale proc pid vars)

-- `read_locale_env`.
unfoldable pub read_locale_env : Proc → ℕ → List (Text × Text)
unfolding collect_locale
read_locale_env proc pid = collect_locale proc pid forwarded_vars
