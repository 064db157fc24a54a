-- ===== src/Cli/Tests.antt =====
-- Tests of the choice of the surface.
use sentinel_cosmic.Cli.{windowed, layer_shell, effective_render_mode}
use sentinel_cosmic.Common.{false, ◌≡◌, some, refl}
use sentinel_cosmic.Text.{codes}

gnome : effective_render_mode false false (some (codes "ubuntu: gnome")) ≡ windowed
unfolding effective_render_mode
gnome = refl

plasma : effective_render_mode false false (some (codes "KDE")) ≡ layer_shell
unfolding effective_render_mode
plasma = refl
