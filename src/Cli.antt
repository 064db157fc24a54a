-- ===== src/Cli.antt =====
-- crates/sentinel-shared/src/cli.rs: which surface the dialog is drawn on.
pub mod Arguments
pub mod Tests
use sentinel_cosmic.Common.{
  if◌then◌else◌, ◌==◌, some, Option, [], ◌∷◌, true, any, List, false, none, Bool,
}
use sentinel_cosmic.I18n.{to_ascii_lowercase}
use sentinel_cosmic.Text.{split, codes, Text, trim, text_eq}

pub data RenderMode : Type 0 where
  layer_shell : RenderMode
  windowed : RenderMode

abbrev pub lacking : List Text
lacking =
    codes "GNOME"
    ∷ codes "GNOME-Classic"
    ∷ codes "GNOME-Flashback"
    ∷ codes "Unity"
    ∷ codes "Pantheon"
    ∷ codes "Budgie"
    ∷ []

-- `desktop_lacks_layer_shell`.
unfoldable pub desktop_lacks_layer_shell : Text → Bool
unfolding split trim text_eq
desktop_lacks_layer_shell xdg =
    any (λ d. any (λ n. text_eq (to_ascii_lowercase (trim d)) (to_ascii_lowercase n)) lacking)
      (split (λ c. c == b':') xdg)

-- `Args::effective_render_mode`, of the two flags and the desktop.
unfoldable pub effective_render_mode : Bool → Bool → Option Text → RenderMode
unfolding desktop_lacks_layer_shell
effective_render_mode true shell desktop = windowed
effective_render_mode false true desktop = layer_shell
effective_render_mode false false none = layer_shell
effective_render_mode false false (some d) =
    if desktop_lacks_layer_shell d then windowed else layer_shell
