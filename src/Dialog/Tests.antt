-- ===== src/Dialog/Tests.antt =====
-- Tests of the dialog, and the theorems at concrete runs.
use sentinel_cosmic.Common.{
  false, ◌≡◌, true, some, min, [], ◌∷◌, ◌≤◌, List, none, arith, refl, ◌*◌, ◌≢◌, map_option, ◌<◌,
  ◌⊎◌,
}
use sentinel_cosmic.Dialog.{
  play, Input, label_of, start, checks, Args, ticks, presses_allow, i32_max,
}
use sentinel_cosmic.Dialog.Deadline.{play_closes}
use sentinel_cosmic.Dialog.Gate.{Earned, play_gated, tick_count}
use sentinel_cosmic.Text.{codes}
use sentinel_cosmic.Verdict.{Outcome, Verdict}

abbrev pub args : Args
args = record {
  title = codes "t";
  message = codes "m";
  secondary = [];
  process_exe = some (codes "/usr/bin/pacman");
  process_cmdline = none;
  process_pid = none;
  process_cwd = none;
  requesting_user = none;
  action = none;
  timeout = 1;
  min_time = 150;
  randomize = false;
  remember_secs = 300;
}

abbrev pub inputs : List Input
inputs = presses_allow ∷ ticks ∷ presses_allow ∷ ticks ∷ checks true ∷ presses_allow ∷ []

abbrev pub ticked_allow : Verdict
ticked_allow = record { outcome = Outcome.allow; remember = true }

allowed_late : play (start args true (codes "en")) inputs ≡ some ticked_allow
unfolding play start
allowed_late = refl

label : label_of 300 (codes "tr") ≡ codes "5 min boyunca hatırla"
unfolding label_of
label = refl

play_gated_example : Earned (min 150 i32_max) 300 (tick_count inputs) ticked_allow
play_gated_example = play_gated args true (codes "en") inputs ticked_allow allowed_late

play_closes_example :
    ((tick_count inputs < 10 * 1)
      × (map_option (λ v. v.outcome) (play (start args true (codes "en")) inputs)
          ≢ some Outcome.timeout))
    ⊎ ((10 * 1 ≤ tick_count inputs)
        × (v : Verdict) × (play (start args true (codes "en")) inputs ≡ some v))
play_closes_example = play_closes args true (codes "en") inputs (omega arith) (omega arith)
