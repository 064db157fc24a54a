-- ===== src/Dialog/Startup/Tests.antt =====
-- The start-up at concrete desktops.
use sentinel_cosmic.Common.{refl, ◌≤◌, ◌*◌, false, true, ◌≡◌, is_some, some, Bool, min, none}
use sentinel_cosmic.Dialog.{i32_max}
use sentinel_cosmic.Dialog.Gate.{tick_count}
use sentinel_cosmic.Dialog.Startup.{run_main, StartArgs, play_sound, Desktop, Command}
use sentinel_cosmic.Dialog.Startup.Answer.{run_main_allow, Answered}
use sentinel_cosmic.Dialog.Tests.{inputs, ticked_allow, args}
use sentinel_cosmic.Pam.Helper.{ready, bytes, ok, parent_wait}
use sentinel_cosmic.Text.{text_eq, Text, codes}

abbrev pub plasma : Desktop
plasma = record {
  wayland_display = some (codes "wayland-0");
  current_desktop = some (codes "KDE");
  logging_rules = none;
  render_loop = some (codes "threaded");
  scene_loads = true;
  coin = true;
  lang = codes "en";
  events = inputs;
}

abbrev warning_sound : StartArgs
warning_sound = record {
  sound_name = codes "dialog-warning";
  windowed = false;
  layer_shell = false;
}

abbrev pub only_ogg : Text → Bool
only_ogg path = text_eq path (codes "/usr/share/sounds/Oxygen/stereo/dialog-warning.ogg")

abbrev pub only_paplay : Command → Bool
only_paplay c = text_eq c.0 (codes "paplay")

allowed_run :
    parent_wait (ready (bytes (run_main only_ogg only_paplay args warning_sound plasma).stdout))
    ≡ (false, ok ticked_allow)
unfolding parent_wait run_main text_eq
allowed_run = refl

no_display :
    (run_main only_ogg only_paplay args warning_sound
      (record plasma { wayland_display = none })).stdout
    ≡ codes "DENY\n"
unfolding run_main
no_display = refl

plays_by_paplay : (play_sound only_ogg only_paplay (codes "dialog-warning")).0 ≡ true
unfolding play_sound text_eq
plays_by_paplay = refl

run_main_allow_example :
    (is_some plasma.wayland_display ≡ true)
    × (plasma.scene_loads ≡ true)
    × (min args.min_time i32_max ≤ 100 * tick_count plasma.events)
    × Answered args plasma
run_main_allow_example =
    run_main_allow only_ogg only_paplay args warning_sound plasma ticked_allow allowed_run refl
