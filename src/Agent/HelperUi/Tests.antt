-- ===== src/Agent/HelperUi/Tests.antt =====
-- Tests of the arguments, with a reader of command lines in clap's place.
use sentinel_cosmic.Agent.HelperUi.{Request, helper_args, ok, line, Event, read_verdict, run_helper}
use sentinel_cosmic.Agent.HelperUi.Arguments.{shown, parse-helper_args}
use sentinel_cosmic.Agent.HelperUi.EndToEnd.{helper_args-allow, lines_of}
use sentinel_cosmic.Agent.HelperUi.Slots.{IsPlain}
use sentinel_cosmic.Cli.Arguments.{
  suits, declared, CliArg, fits, command_line, Kind, Given, parse, from_matches,
}
use sentinel_cosmic.Cli.Arguments.Numbers.{plain-to_string}
use sentinel_cosmic.Common.{
  ◌≡◌, ◌∷◌, Option, inr, if◌then◌else◌, All, inl, map_option, [], Bool-cases, refl, some, none,
  arith, true, List, take, ◌*◌, ◌≤◌, min, is_some,
}
use sentinel_cosmic.Dialog.{i32_max}
use sentinel_cosmic.Dialog.Gate.{tick_count}
use sentinel_cosmic.Dialog.Startup.{run_main}
use sentinel_cosmic.Dialog.Startup.Process.{helper_stdout}
use sentinel_cosmic.Dialog.Startup.Tests.{only_ogg, plasma, only_paplay}
use sentinel_cosmic.Dialog.Tests.{ticked_allow}
use sentinel_cosmic.Text.{lines, Text, codes, text_eq}
use sentinel_cosmic.Text.Decimal.{pos}
use sentinel_cosmic.Verdict.{parse_verdict, show_verdict}

-- The kind of an argument.
abbrev kind_of : List CliArg → Text → Option Kind
kind_of [] name = none
kind_of (f ∷ fs) name =
    let rest = kind_of fs name in if text_eq f.name name then some f.kind else rest

abbrev by_kind : Option Kind → Option Given → Option Given → Option Given
by_kind none as_value as_switch = none
by_kind (some Kind.with_value) as_value as_switch = as_value
by_kind (some Kind.switch) as_value as_switch = as_switch

-- Reads words, the first of which may be the value of an argument.
abbrev pub scan : List CliArg → Option Text → List Text → Option Given
scan fs none [] = some []
scan fs (some name) [] = none
scan fs (some name) (v ∷ ws) = map_option (λ g. (name, some v) ∷ g) (scan fs none ws)
scan fs none (w ∷ ws) =
    by_kind (kind_of fs w) (scan fs (some w) ws) (map_option (λ g. (w, none) ∷ g) (scan fs none ws))

valued_fits :
    (fs : List CliArg) (name v : Text)
    → fits fs name (some v) ≡ true
    → kind_of fs name ≡ some Kind.with_value
valued_fits [] name v h = absurd (cc h)
valued_fits (f ∷ fs) name v h = elim (Bool-cases (text_eq f.name name)) [
  | inl e ↦ rw e (go f.kind (rw e at h))
  | inr e ↦ rw e (valued_fits fs name v (rw e at h))
]
  where
    go : (k : Kind) → suits k (some v) ≡ true → some k ≡ some Kind.with_value
    go Kind.with_value q = refl
    go Kind.switch q = absurd (cc q)

switch_fits :
    (fs : List CliArg) (name : Text) → fits fs name none ≡ true → kind_of fs name ≡ some Kind.switch
switch_fits [] name h = absurd (cc h)
switch_fits (f ∷ fs) name h = elim (Bool-cases (text_eq f.name name)) [
  | inl e ↦ rw e (go f.kind (rw e at h))
  | inr e ↦ rw e (switch_fits fs name (rw e at h))
]
  where
    go : (k : Kind) → suits k none ≡ true → some k ≡ some Kind.switch
    go Kind.with_value q = absurd (cc q)
    go Kind.switch q = refl

pub scan-command_line :
    (fs : List CliArg) (g : Given)
    → All (λ a. fits fs a.0 a.1 ≡ true) g
    → scan fs none (command_line g) ≡ some g
scan-command_line fs [] h = refl
scan-command_line fs ((name, none) ∷ g) (f, h) =
    rw (switch_fits fs name f, scan-command_line fs g h) refl
scan-command_line fs ((name, some v) ∷ g) (f, h) =
    rw (valued_fits fs name v f, scan-command_line fs g h) refl

abbrev pub reader : List CliArg → List Text → Option Given
reader fs ws = scan fs none ws

abbrev pkexec : Request
pkexec = record {
  title = codes "Authentication Required";
  message = codes "pkexec wants to run";
  secondary = [];
  timeout = 30;
  min_time = 500;
  randomize = true;
  sound_name = codes "dialog-warning";
  remember_secs = 0;
  process_exe = some (codes "/usr/bin/pkexec");
  process_cmdline = some (codes "pkexec --user root id");
  process_pid = some (pos 4242);
  process_cwd = none;
  requesting_user = some (codes "ada");
  action = some (codes "org.freedesktop.policykit.exec");
}

pkexec-IsPlain : IsPlain pkexec
pkexec-IsPlain = record {
  title = refl;
  message = refl;
  secondary = refl;
  sound_name = refl;
  process_exe = refl;
  process_cmdline = refl;
  process_cwd = refl;
  requesting_user = refl;
  action = refl;
  timeout = omega arith;
  min_time = omega arith;
  remember_secs = omega arith;
  process_pid = plain-to_string 4242;
  pid_in_range = omega arith;
}

parse-helper_args_example : parse reader (helper_args pkexec) ≡ some (shown pkexec)
parse-helper_args_example =
    parse-helper_args reader (λ g w. scan-command_line declared g w.known) pkexec pkexec-IsPlain

abbrev quick : Request
quick = record pkexec { timeout = 1; min_time = 150; remember_secs = 300 }

quick-IsPlain : IsPlain quick
quick-IsPlain = record {
  title = refl;
  message = refl;
  secondary = refl;
  sound_name = refl;
  process_exe = refl;
  process_cmdline = refl;
  process_cwd = refl;
  requesting_user = refl;
  action = refl;
  timeout = omega arith;
  min_time = omega arith;
  remember_secs = omega arith;
  process_pid = plain-to_string 4242;
  pid_in_range = omega arith;
}

abbrev answered : List Event
answered = line (show_verdict ticked_allow) ∷ []

lines_came :
    lines_of answered
    ≡ take 1 (
        lines (
          helper_stdout reader only_ogg only_paplay
            (codes "/usr/lib/sentinel-helper" ∷ helper_args quick)
            plasma))
unfolding helper_stdout helper_args parse run_main text_eq declared from_matches lines show_verdict
lines_came = refl

heard_allow : run_helper none (some answered) quick ≡ ok ticked_allow
unfolding run_helper read_verdict parse_verdict show_verdict
heard_allow = refl

helper_args-allow_example :
    (is_some plasma.wayland_display ≡ true)
    × (plasma.scene_loads ≡ true)
    × (min 150 i32_max ≤ 100 * tick_count plasma.events)
helper_args-allow_example =
    helper_args-allow reader (λ g w. scan-command_line declared g w.known) only_ogg only_paplay
      (codes "/usr/lib/sentinel-helper") quick plasma 1 answered ticked_allow quick-IsPlain
      lines_came heard_allow refl
