-- ===== src/LogKv.antt =====
-- crates/sentinel-shared/src/lib.rs: `log_kv::quote`, the values of the audit log's `key=value` lines.
pub mod Reader
pub mod Tests
use sentinel_cosmic.Common.{if◌then◌else◌, [], not, ◌==◌, ◌∷◌, Bool, ◌||◌, ℕ, any, ◌++◌}
use sentinel_cosmic.Text.{Text, is_whitespace}

unfoldable pub is_special : ℕ → Bool
unfolding is_whitespace
is_special c = is_whitespace c || c == b'"' || c == b'='

-- The loop of the quoted form.
unfoldable pub escape_value : Text → Text
escape_value [] = []
escape_value (c ∷ s) =
    if c == b'"'
    then b'\\' ∷ b'"' ∷ escape_value s
    else if c == b'\\'
    then b'\\' ∷ b'\\' ∷ escape_value s
    else c ∷ escape_value s

unfoldable pub quote : Text → Text
unfolding is_special escape_value
quote [] = b'"' ∷ b'"' ∷ []
quote (c ∷ s) =
    if not (any is_special (c ∷ s)) then c ∷ s else b'"' ∷ (escape_value (c ∷ s) ++ (b'"' ∷ []))
