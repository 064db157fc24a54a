-- ===== src/Message.antt =====
-- crates/sentinel-shared/src/lib.rs: `format_message`, the `%` templates of the dialog.
pub mod Template
pub mod Tests
use sentinel_cosmic.Common.{if◌then◌else◌, [], ◌++◌, not, ◌==◌, ◌∷◌}
use sentinel_cosmic.Text.{Text}

module _ (user service process : Text) where
  -- The loop: what the rest of the template appends to `out`.
  unfoldable pub expand : Text → Text
  expand [] = []
  expand (c ∷ []) = c ∷ []
  expand (c ∷ d ∷ s) =
      let plain = c ∷ expand (d ∷ s) in
      let rest = expand s in
      if not (c == b'%')
      then plain
      else if d == b'u'
      then user ++ rest
      else if d == b's'
      then service ++ rest
      else if d == b'p'
      then process ++ rest
      else if d == b'%'
      then b'%' ∷ rest
      else b'%' ∷ d ∷ rest

unfoldable pub format_message : Text → Text → Text → Text → Text
unfolding expand
format_message template user service process = expand user service process template
