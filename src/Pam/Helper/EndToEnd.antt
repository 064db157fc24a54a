-- ===== src/Pam/Helper/EndToEnd.antt =====
-- crates/pam-sentinel/src/helper.rs with crates/sentinel-helper-kde/src/main.rs: from the request of the PAM
-- module to the verdict that it reads.
use sentinel_cosmic.Agent.HelperUi.Arguments.{shown, parse-helper_args}
use sentinel_cosmic.Agent.HelperUi.Slots.{IsPlain}
use sentinel_cosmic.Cli.Arguments.{IsWellGiven, command_line, CliArg, declared, Given}
use sentinel_cosmic.Common.{
  some, ◌∙◌, sym, Option, min, false, ◌*◌, List, ◌≤◌, true, Bool, ap, is_some, ◌≡◌, ℕ,
}
use sentinel_cosmic.Dialog.{i32_max}
use sentinel_cosmic.Dialog.Gate.{tick_count}
use sentinel_cosmic.Dialog.Startup.{Desktop, Command, run_main}
use sentinel_cosmic.Dialog.Startup.Process.{helper_stdout, ran}
use sentinel_cosmic.Dialog.Startup.Answer.{run_main_allow}
use sentinel_cosmic.Pam.Helper.{ok, bytes, parent_wait, ready, HelperRequest, child_argv}
use sentinel_cosmic.Pam.Helper.Arguments.{IsNulFree, as_request, child_argv-helper_args}
use sentinel_cosmic.Text.{Text, contains}
use sentinel_cosmic.Verdict.{Verdict, Outcome}

helper_stdout-child_argv :
    (clap : List CliArg → List Text → Option Given)
    (documented : (g : Given) → IsWellGiven declared g → clap declared (command_line g) ≡ some g)
    (is_file : Text → Bool) (starts : Command → Bool) (path : Text) (req : HelperRequest)
    (d : Desktop)
    → contains path 0 ≡ false
    → IsNulFree req
    → IsPlain (as_request req)
    → helper_stdout clap is_file starts (child_argv path req) d
      ≡ (run_main is_file starts (shown (as_request req)).0 (shown (as_request req)).1 d).stdout
unfolding helper_stdout
helper_stdout-child_argv clap documented is_file starts path req d no_nul without texts =
    ap (λ ws. helper_stdout clap is_file starts ws d)
      (child_argv-helper_args path req no_nul without)
    ∙ ap (ran is_file starts d) (parse-helper_args clap documented (as_request req) texts)

-- The whole dialog, from the PAM module's request to its answer. Where clap takes declared arguments with
-- values that do not begin with a hyphen as they stand, the request's texts hold no NUL and do not begin
-- with a hyphen, and its numbers are in their types' ranges, an Allow that the PAM module reads was given
-- in a dialog that had the service's own minimum display time behind it, measured in ticks of 100
-- milliseconds, on a Wayland display and with a scene that loaded.
pub child_argv-allow :
    (clap : List CliArg → List Text → Option Given)
    (documented : (g : Given) → IsWellGiven declared g → clap declared (command_line g) ≡ some g)
    (is_file : Text → Bool) (starts : Command → Bool) (path : Text) (req : HelperRequest)
    (d : Desktop) (v : Verdict)
    → contains path 0 ≡ false
    → IsNulFree req
    → IsPlain (as_request req)
    → parent_wait (ready (bytes (helper_stdout clap is_file starts (child_argv path req) d)))
      ≡ (false, ok v)
    → v.outcome ≡ Outcome.allow
    → (is_some d.wayland_display ≡ true)
      × (d.scene_loads ≡ true)
      × (min req.cfg.min_display_time_ms i32_max ≤ 100 * tick_count d.events)
child_argv-allow clap documented is_file starts path req d v no_nul without texts read allowed =
    let written =
      helper_stdout-child_argv clap documented is_file starts path req d no_nul without texts in
    let (display, loaded, late, _) =
      run_main_allow is_file starts (shown (as_request req)).0 (shown (as_request req)).1 d v
        (ap (λ (out : List ℕ). parent_wait (ready (bytes out))) (sym written) ∙ read) allowed in
    (display, loaded, late)
