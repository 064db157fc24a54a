-- ===== src/Agent/HelperUi/Arguments.antt =====
-- crates/sentinel-polkit-agent/src/helper_ui.rs against crates/sentinel-shared/src/cli.rs: the arguments
-- that the agent passes, as the dialog reads them.
use sentinel_cosmic.Agent.HelperUi.{Request, helper_args}
use sentinel_cosmic.Agent.HelperUi.Slots.{slots, IsPlain, command_line-slots, given-IsWellGiven}
use sentinel_cosmic.Cli.Arguments.{
  parse, Given, command_line, from_matches, declared, value_of, CliArg, u64_max, IsWellGiven,
  is_given,
}
use sentinel_cosmic.Cli.Arguments.Numbers.{number_read, optional_number_read}
use sentinel_cosmic.Cli.Arguments.Slots.{collect-value, collect-given, slot_held, collect}
use sentinel_cosmic.Common.{
  ◌∙◌, ◌||◌, ◌>>=◌, ◌≡◌, true, or_else, ap, refl, if◌then◌else◌, none, map_option, Option, is_some,
  false, Bool, [], sym, ◌∷◌, unwrap_or, List, some,
}
use sentinel_cosmic.Dialog.{Args}
use sentinel_cosmic.Dialog.Startup.{StartArgs}
use sentinel_cosmic.Text.{codes, Text, is_empty, text_eq}
use sentinel_cosmic.Text.Decimal.{u32_max, to_string, show_i32}

-- What the dialog is to read.
abbrev pub shown : Request → Args × StartArgs
shown req = (
  record {
    title = req.title;
    message = req.message;
    secondary = req.secondary;
    process_exe = req.process_exe;
    process_cmdline = req.process_cmdline;
    process_pid = req.process_pid;
    process_cwd = req.process_cwd;
    requesting_user = req.requesting_user;
    action = req.action;
    timeout = req.timeout;
    min_time = req.min_time;
    randomize = req.randomize;
    remember_secs = req.remember_secs;
  },
  record { sound_name = req.sound_name; windowed = false; layer_shell = false },
)

-- What stands at the places is read as the request.
sound_held :
    (s : Text)
    → unwrap_or (or_else (slot_held (if is_empty s then none else some (some s))) none) [] ≡ s
sound_held [] = refl
sound_held (c ∷ s) = refl

option_held : (o : Option Text) → or_else (slot_held (map_option some o)) none ≡ o
option_held none = refl
option_held (some v) = refl

abbrev no_value : Option Text
no_value = none

randomize_given : (b : Bool) → (is_some (if b then some no_value else none) || false) ≡ b
randomize_given true = refl
randomize_given false = refl

-- Arguments that hold a request's fields.
record Holds (req : Request) (g : Given) : Type 0 where
  title : value_of g (codes "--title") ≡ some req.title
  message : value_of g (codes "--message") ≡ some req.message
  secondary : value_of g (codes "--secondary") ≡ some req.secondary
  timeout : value_of g (codes "--timeout") ≡ some (to_string req.timeout)
  min_time : value_of g (codes "--min-time") ≡ some (to_string req.min_time)
  remember_secs : value_of g (codes "--remember-secs") ≡ some (to_string req.remember_secs)
  sound_name : unwrap_or (value_of g (codes "--sound-name")) [] ≡ req.sound_name
  randomize : is_given g (codes "--randomize") ≡ req.randomize
  windowed : is_given g (codes "--windowed") ≡ false
  layer_shell : is_given g (codes "--layer-shell") ≡ false
  process_exe : value_of g (codes "--process-exe") ≡ req.process_exe
  process_cmdline : value_of g (codes "--process-cmdline") ≡ req.process_cmdline
  process_pid : value_of g (codes "--process-pid") ≡ map_option show_i32 req.process_pid
  process_cwd : value_of g (codes "--process-cwd") ≡ req.process_cwd
  requesting_user : value_of g (codes "--requesting-user") ≡ req.requesting_user
  action : value_of g (codes "--action") ≡ req.action

slots-Holds : (req : Request) → Holds req (collect (slots req))
unfolding text_eq
slots-Holds req =
    let read = collect-value (slots req) in
    let present = collect-given (slots req) in
    record {
      title = read (codes "--title");
      message = read (codes "--message");
      secondary = read (codes "--secondary");
      timeout = read (codes "--timeout");
      min_time = read (codes "--min-time");
      remember_secs = read (codes "--remember-secs");
      sound_name =
          ap (λ o. unwrap_or o []) (read (codes "--sound-name")) ∙ sound_held req.sound_name;
      randomize = present (codes "--randomize") ∙ randomize_given req.randomize;
      windowed = present (codes "--windowed");
      layer_shell = present (codes "--layer-shell");
      process_exe = read (codes "--process-exe") ∙ option_held req.process_exe;
      process_cmdline = read (codes "--process-cmdline") ∙ option_held req.process_cmdline;
      process_pid =
          read (codes "--process-pid") ∙ option_held (map_option show_i32 req.process_pid);
      process_cwd = read (codes "--process-cwd") ∙ option_held req.process_cwd;
      requesting_user = read (codes "--requesting-user") ∙ option_held req.requesting_user;
      action = read (codes "--action") ∙ option_held req.action;
    }

Holds-shown :
    (req : Request) (g : Given) → IsPlain req → Holds req g → from_matches g ≡ some (shown req)
unfolding from_matches
Holds-shown req g p h =
    rw
      (
        optional_number_read g (codes "--process-pid") req.process_pid h.process_pid p.pid_in_range,
        number_read g (codes "--timeout") u64_max 30 req.timeout h.timeout p.timeout,
        number_read g (codes "--min-time") u64_max 500 req.min_time h.min_time p.min_time,
        number_read g (codes "--remember-secs") u32_max 0 req.remember_secs h.remember_secs
            p.remember_secs,
        h.title,
        h.message,
        h.secondary,
        h.sound_name,
        h.randomize,
        h.windowed,
        h.layer_shell,
        h.process_exe,
        h.process_cmdline,
        h.process_cwd,
        h.requesting_user,
        h.action,
      )
      refl

slots-shown : (req : Request) → IsPlain req → from_matches (collect (slots req)) ≡ some (shown req)
slots-shown req p = Holds-shown req (collect (slots req)) p (slots-Holds req)

-- The agent and the dialog agree on the arguments. Where clap takes declared arguments with values that
-- do not begin with a hyphen as they stand, the dialog reads, from the arguments that the agent passes
-- for a request whose texts do not begin with a hyphen, whose pid, if there is one, is not negative and
-- whose numbers are in their types' ranges, every field of the request, and no surface is forced.
pub parse-helper_args :
    (clap : List CliArg → List Text → Option Given)
    (documented : (g : Given) → IsWellGiven declared g → clap declared (command_line g) ≡ some g)
    (req : Request)
    → IsPlain req
    → parse clap (helper_args req) ≡ some (shown req)
unfolding parse
parse-helper_args clap documented req p =
    ap (λ ws. clap declared ws >>= from_matches) (sym (command_line-slots req))
    ∙ ap (λ m. m >>= from_matches) (documented (collect (slots req)) (given-IsWellGiven req p))
    ∙ slots-shown req p
