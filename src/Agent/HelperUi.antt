-- ===== src/Agent/HelperUi.antt =====
-- crates/sentinel-polkit-agent/src/helper_ui.rs: spawning the dialog and reading its verdict.
pub mod Arguments
pub mod EndToEnd
pub mod Slots
pub mod Tests
use sentinel_cosmic.Basename.{process_name_or_unknown}
use sentinel_cosmic.Common.{
  Option-cases, inr, some, ◌∙◌, true, arith, inl, if◌then◌else◌, ap, false, ltb, map_option, Option,
  ◌⊎◌, Bool, ◌>>=◌, ◌∷◌, none, ◌≡◌, refl, ◌++◌, List, [], ℕ,
}
use sentinel_cosmic.Config.{polkit_pam_service, ServiceConfig}
use sentinel_cosmic.Dialog.Tests.{args}
use sentinel_cosmic.Message.{format_message}
use sentinel_cosmic.Text.{is_empty, codes, Text}
use sentinel_cosmic.Text.Decimal.{to_string, ℤ, show_i32}
use sentinel_cosmic.Verdict.{Verdict, parse_verdict}

pub data HelperError : Type 0 where
  spawn_failed : HelperError
  no_output : HelperError
  timed_out : HelperError
  io_failed : HelperError

pub record Request : Type 0 where
  pub title : Text
  pub message : Text
  pub secondary : Text
  pub timeout : ℕ
  pub min_time : ℕ
  pub randomize : Bool
  pub sound_name : Text
  pub remember_secs : ℕ
  pub process_exe : Option Text
  pub process_cmdline : Option Text
  pub process_pid : Option ℤ
  pub process_cwd : Option Text
  pub requesting_user : Option Text
  pub action : Option Text

pub record ForAction : Type 0 where
  pub action_id : Text
  pub cfg : ServiceConfig
  pub remember_secs : ℕ
  pub username : Text
  pub process_exe : Option Text
  pub process_cmdline : Option Text
  pub process_pid : Option ℤ
  pub process_cwd : Option Text
  pub requesting_user : Option Text

-- `Request::for_action`.
unfoldable pub for_action : ForAction → Request
unfolding format_message process_name_or_unknown
for_action args =
    let process_name = process_name_or_unknown args.process_exe in
    let fill =
      λ (template : Text). format_message template args.username polkit_pam_service process_name in
    record {
      title = fill args.cfg.title;
      message = fill args.cfg.message;
      secondary = fill args.cfg.secondary;
      timeout = args.cfg.timeout;
      min_time = args.cfg.min_display_time_ms;
      randomize = args.cfg.randomize_buttons;
      sound_name = args.cfg.sound_name;
      remember_secs = args.remember_secs;
      process_exe = args.process_exe;
      process_cmdline = args.process_cmdline;
      process_pid = args.process_pid;
      process_cwd = args.process_cwd;
      requesting_user = args.requesting_user;
      action = some args.action_id;
    }

abbrev pub flag_value : Text → Option Text → List Text
flag_value name none = []
flag_value name (some v) = name ∷ v ∷ []

abbrev pub process_args : Request → List Text
process_args req =
    flag_value (codes "--process-exe") req.process_exe
    ++ (flag_value (codes "--process-cmdline") req.process_cmdline
        ++ (flag_value (codes "--process-pid") (map_option show_i32 req.process_pid)
            ++ (flag_value (codes "--process-cwd") req.process_cwd
                ++ (flag_value (codes "--requesting-user") req.requesting_user
                    ++ flag_value (codes "--action") req.action))))

-- The arguments that `run` passes to the helper.
unfoldable pub helper_args : Request → List Text
unfolding to_string
helper_args req =
    codes "--title"
    ∷ req.title
    ∷ codes "--message"
    ∷ req.message
    ∷ codes "--secondary"
    ∷ req.secondary
    ∷ codes "--timeout"
    ∷ to_string req.timeout
    ∷ codes "--min-time"
    ∷ to_string req.min_time
    ∷ codes "--remember-secs"
    ∷ to_string req.remember_secs
    ∷ ((if is_empty req.sound_name then [] else codes "--sound-name" ∷ req.sound_name ∷ [])
        ++ ((if req.randomize then codes "--randomize" ∷ [] else []) ++ process_args req))

-- What comes from the helper: a line, a read error, or the moment at which the agent's deadline
-- passes. The list ends where the helper closes its output.
pub data Event : Type 0 where
  line : Text → Event
  read_error : Event
  deadline : Event

pub data Result {ℓ} (A : Type ℓ) : Type ℓ where
  ok : A → Result A
  err : HelperError → Result A

-- `read_verdict` under the timeout, which is set only where the helper itself has a deadline.
unfoldable pub read_verdict : Bool → List Event → Result Verdict
unfolding parse_verdict
read_verdict limited [] = err no_output
read_verdict limited (line l ∷ es) = elim (parse_verdict l) [
  | some v ↦ ok v
  | none ↦ read_verdict limited es
]
read_verdict limited (read_error ∷ es) = err io_failed
read_verdict true (deadline ∷ es) = err timed_out
read_verdict false (deadline ∷ es) = read_verdict false es

-- What the process does after the spawn; none where the spawn fails. The first argument is the value
-- of SENTINEL_TEST_HELPER_OUTCOME, if that is set.
unfoldable pub run_helper : Option Text → Option (List Event) → Request → Result Verdict
unfolding read_verdict parse_verdict
run_helper canned child req = elim (canned >>= parse_verdict) [
  | some v ↦ ok v
  | none ↦ elim child [
    | none ↦ err spawn_failed
    | some events ↦ read_verdict (ltb 0 req.timeout) events
  ]
]

-- The first line that is a verdict, if none of the lines before it is one.
abbrev pub FirstVerdict : Verdict → List Event → Type 0
FirstVerdict v [] = ⊥
FirstVerdict v (line l ∷ es) =
    (parse_verdict l ≡ some v) ⊎ ((parse_verdict l ≡ none) × FirstVerdict v es)
FirstVerdict v (read_error ∷ es) = ⊥
FirstVerdict v (deadline ∷ es) = FirstVerdict v es

pub read_verdict-FirstVerdict :
    (limited : Bool) (es : List Event) (v : Verdict)
    → read_verdict limited es ≡ ok v
    → FirstVerdict v es
unfolding read_verdict
read_verdict-FirstVerdict limited [] v h = cc
read_verdict-FirstVerdict limited (line l ∷ es) v h = elim (Option-cases (parse_verdict l)) [
  | inl e ↦ inr (e, read_verdict-FirstVerdict limited es v (rw (e, read_verdict) at h))
  | inr (w, e) ↦ inl (e ∙ ap some (ground (arith, e, h)))
]
read_verdict-FirstVerdict limited (read_error ∷ es) v h = cc
read_verdict-FirstVerdict true (deadline ∷ es) v h = cc
read_verdict-FirstVerdict false (deadline ∷ es) v h = read_verdict-FirstVerdict false es v h

-- No dialog, no Allow: without the test override, a verdict comes only from a helper that was
-- spawned, and it is the first line of its output that reads as a verdict.
pub run_helper_verdict :
    (child : Option (List Event)) (req : Request) (v : Verdict)
    → run_helper none child req ≡ ok v
    → (events : List Event) × (child ≡ some events) × FirstVerdict v events
unfolding run_helper
run_helper_verdict none req v h = cc
run_helper_verdict (some es) req v h =
    (es, refl, read_verdict-FirstVerdict (ltb 0 req.timeout) es v h)
