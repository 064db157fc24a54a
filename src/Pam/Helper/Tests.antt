-- ===== src/Pam/Helper/Tests.antt =====
-- Tests of the dialog's arguments on the PAM module's side.
use sentinel_cosmic.Agent.HelperUi.{helper_args}
use sentinel_cosmic.Agent.HelperUi.Slots.{IsPlain}
use sentinel_cosmic.Agent.HelperUi.Tests.{reader, scan-command_line}
use sentinel_cosmic.Agent.Tests.{config}
use sentinel_cosmic.Cli.Arguments.{from_matches, parse, declared}
use sentinel_cosmic.Cli.Arguments.Numbers.{plain-to_string}
use sentinel_cosmic.Common.{◌∷◌, none, refl, arith, ◌≤◌, ◌≡◌, true, min, ◌*◌, [], false, is_some}
use sentinel_cosmic.Dialog.{i32_max}
use sentinel_cosmic.Dialog.Gate.{tick_count}
use sentinel_cosmic.Dialog.Startup.{run_main}
use sentinel_cosmic.Dialog.Startup.Process.{helper_stdout}
use sentinel_cosmic.Dialog.Startup.Tests.{plasma, only_paplay, only_ogg}
use sentinel_cosmic.Dialog.Tests.{ticked_allow}
use sentinel_cosmic.Pam.Helper.{ok, HelperRequest, bytes, parent_wait, child_argv, ready}
use sentinel_cosmic.Pam.Helper.Arguments.{child_argv-helper_args, as_request, IsNulFree}
use sentinel_cosmic.Pam.Helper.EndToEnd.{child_argv-allow}
use sentinel_cosmic.Text.{text_eq, codes, contains, Text}

abbrev shown_request : HelperRequest
shown_request = record {
  cfg = record config {
    show_process_info = true;
    randomize_buttons = true;
    min_display_time_ms = 150;
    timeout = 1;
  };
  user = codes "ada";
  service = codes "sudo";
  process = record {
    name = codes "sudo";
    exe = codes "/usr/bin/sudo";
    cmdline = codes "sudo id";
    cwd = [];
    remember_command = none;
    policy_exe = none;
  };
  title = codes "t";
  message = codes "m";
  secondary = [];
  target_uid = 1000;
  requesting_pid = 42;
  remember_secs = 300;
}

shown_request-IsNulFree : IsNulFree shown_request
unfolding contains
shown_request-IsNulFree = record {
  title = refl;
  message = refl;
  secondary = refl;
  sound_name = refl;
  exe = refl;
  cmdline = refl;
  cwd = refl;
  user = refl;
  service = refl;
}

child_argv-helper_args_example :
    child_argv (codes "/usr/lib/sentinel-helper") shown_request
    ≡ codes "/usr/lib/sentinel-helper" ∷ helper_args (as_request shown_request)
unfolding contains
child_argv-helper_args_example =
    child_argv-helper_args (codes "/usr/lib/sentinel-helper") shown_request refl
      shown_request-IsNulFree

shown_request-IsPlain : IsPlain (as_request shown_request)
shown_request-IsPlain = record {
  title = refl;
  message = refl;
  secondary = refl;
  sound_name = refl;
  process_exe = refl;
  process_cmdline = refl;
  process_cwd = refl;
  requesting_user = refl;
  action = refl;
  timeout = omega arith;
  min_time = omega arith;
  remember_secs = omega arith;
  process_pid = plain-to_string 42;
  pid_in_range = omega arith;
}

abbrev helper_path : Text
helper_path = codes "/usr/lib/sentinel-helper"

read_allow :
    parent_wait (
      ready (
        bytes (
          helper_stdout reader only_ogg only_paplay (child_argv helper_path shown_request) plasma)))
    ≡ (false, ok ticked_allow)
unfolding helper_stdout child_argv parse run_main parent_wait text_eq contains declared from_matches
read_allow = refl

child_argv-allow_example :
    (is_some plasma.wayland_display ≡ true)
    × (plasma.scene_loads ≡ true)
    × (min 150 i32_max ≤ 100 * tick_count plasma.events)
unfolding contains
child_argv-allow_example =
    child_argv-allow reader (λ g w. scan-command_line declared g w.known) only_ogg only_paplay
      helper_path shown_request plasma ticked_allow refl shown_request-IsNulFree
      shown_request-IsPlain read_allow refl
