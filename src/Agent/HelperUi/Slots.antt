-- ===== src/Agent/HelperUi/Slots.antt =====
-- crates/sentinel-polkit-agent/src/helper_ui.rs: the arguments that the agent passes, each at its place.
use sentinel_cosmic.Agent.HelperUi.{Request, flag_value, helper_args}
use sentinel_cosmic.Cli.Arguments.{command_line, IsWellGiven, u64_max, fits, plain, declared}
use sentinel_cosmic.Cli.Arguments.Numbers.{plain-to_string, IsI32Option}
use sentinel_cosmic.Cli.Arguments.Slots.{Slots, collect-IsWellGiven, slot_fits, collect}
use sentinel_cosmic.Common.{
  Bool, Option, [], refl, List, ◌∷◌, ◌≡◌, some, if◌then◌else◌, ◌≤◌, none, map_option, ◌++◌, false,
  true, ap, All,
}
use sentinel_cosmic.Text.{Text, codes, is_empty, text_eq}
use sentinel_cosmic.Text.Decimal.{to_string, u32_max, show_i32}

-- Whether none of a request's texts begins with a hyphen.
abbrev plain_option : Option Text → Bool
plain_option none = true
plain_option (some s) = plain s

-- A request within its types, none of whose texts begins with a hyphen and whose pid is not negative: it
-- would be printed with one.
pub record IsPlain (req : Request) : Type 0 where
  pub title : plain req.title ≡ true
  pub message : plain req.message ≡ true
  pub secondary : plain req.secondary ≡ true
  pub sound_name : plain req.sound_name ≡ true
  pub process_exe : plain_option req.process_exe ≡ true
  pub process_cmdline : plain_option req.process_cmdline ≡ true
  pub process_cwd : plain_option req.process_cwd ≡ true
  pub requesting_user : plain_option req.requesting_user ≡ true
  pub action : plain_option req.action ≡ true
  pub timeout : req.timeout ≤ u64_max
  pub min_time : req.min_time ≤ u64_max
  pub remember_secs : req.remember_secs ≤ u32_max
  pub process_pid : plain_option (map_option show_i32 req.process_pid) ≡ true
  pub pid_in_range : IsI32Option req.process_pid

-- The places of the arguments.
abbrev process_slots : Request → Slots
process_slots req =
    (codes "--process-exe", map_option some req.process_exe)
    ∷ (codes "--process-cmdline", map_option some req.process_cmdline)
    ∷ (codes "--process-pid", map_option some (map_option show_i32 req.process_pid))
    ∷ (codes "--process-cwd", map_option some req.process_cwd)
    ∷ (codes "--requesting-user", map_option some req.requesting_user)
    ∷ (codes "--action", map_option some req.action)
    ∷ []

abbrev pub slots : Request → Slots
slots req =
    (codes "--title", some (some req.title))
    ∷ (codes "--message", some (some req.message))
    ∷ (codes "--secondary", some (some req.secondary))
    ∷ (codes "--timeout", some (some (to_string req.timeout)))
    ∷ (codes "--min-time", some (some (to_string req.min_time)))
    ∷ (codes "--remember-secs", some (some (to_string req.remember_secs)))
    ∷ (codes "--sound-name", if is_empty req.sound_name then none else some (some req.sound_name))
    ∷ (codes "--randomize", if req.randomize then some none else none)
    ∷ process_slots req

sound_words :
    (v : Text) (s : Slots) (rest : List Text)
    → command_line (collect s) ≡ rest
    → command_line
        (collect ((codes "--sound-name", if is_empty v then none else some (some v)) ∷ s))
      ≡ (if is_empty v then [] else codes "--sound-name" ∷ v ∷ []) ++ rest
sound_words [] s rest e = e
sound_words (c ∷ v) s rest e = ap (λ r. codes "--sound-name" ∷ (c ∷ v) ∷ r) e

switch_words :
    (name : Text) (b : Bool) (s : Slots) (rest : List Text)
    → command_line (collect s) ≡ rest
    → command_line (collect ((name, if b then some none else none) ∷ s))
      ≡ (if b then name ∷ [] else []) ++ rest
switch_words name true s rest e = ap (λ r. name ∷ r) e
switch_words name false s rest e = e

-- The agent spells the arguments at their places.
optional_words :
    (name : Text) (o : Option Text) (s : Slots) (rest : List Text)
    → command_line (collect s) ≡ rest
    → command_line (collect ((name, map_option some o) ∷ s)) ≡ flag_value name o ++ rest
optional_words name none s rest e = e
optional_words name (some v) s rest e = ap (λ r. name ∷ v ∷ r) e

last_words :
    (name : Text) (o : Option Text)
    → command_line (collect ((name, map_option some o) ∷ [])) ≡ flag_value name o
last_words name none = refl
last_words name (some v) = refl

pub command_line-slots : (req : Request) → command_line (collect (slots req)) ≡ helper_args req
unfolding helper_args
command_line-slots req =
    let process = optional_words (codes "--process-exe") req.process_exe _ _ (
      optional_words (codes "--process-cmdline") req.process_cmdline _ _ (
        optional_words (codes "--process-pid") (map_option show_i32 req.process_pid) _ _ (
          optional_words (codes "--process-cwd") req.process_cwd _ _ (
            optional_words (codes "--requesting-user") req.requesting_user _ _
              (last_words (codes "--action") req.action))))) in
    let tail =
      sound_words req.sound_name _ _
        (switch_words (codes "--randomize") req.randomize _ _ process) in
    ap
      (λ r.
        codes "--title"
        ∷ req.title
        ∷ codes "--message"
        ∷ req.message
        ∷ codes "--secondary"
        ∷ req.secondary
        ∷ codes "--timeout"
        ∷ to_string req.timeout
        ∷ codes "--min-time"
        ∷ to_string req.min_time
        ∷ codes "--remember-secs"
        ∷ to_string req.remember_secs
        ∷ r)
      tail

-- The places are well given where the texts are plain.
option_fits :
    (name : Text) (o : Option Text)
    → ((s : Text) → plain s ≡ true → fits declared name (some s) ≡ true)
    → plain_option o ≡ true
    → slot_fits declared name (map_option some o) ≡ true
option_fits name none takes h = refl
option_fits name (some s) takes h = takes s h

sound_fits :
    (s : Text)
    → plain s ≡ true
    → slot_fits declared (codes "--sound-name") (if is_empty s then none else some (some s)) ≡ true
unfolding declared text_eq
sound_fits [] h = refl
sound_fits (c ∷ s) h = h

randomize_fits :
    (b : Bool) → slot_fits declared (codes "--randomize") (if b then some none else none) ≡ true
unfolding declared text_eq
randomize_fits true = refl
randomize_fits false = refl

slots-fit : (req : Request) → IsPlain req → All (λ p. slot_fits declared p.0 p.1 ≡ true) (slots req)
unfolding declared text_eq
slots-fit req p =
    let process : All (λ p. slot_fits declared p.0 p.1 ≡ true) (process_slots req) = (
      option_fits (codes "--process-exe") req.process_exe (λ s h. h) p.process_exe,
      (
        option_fits (codes "--process-cmdline") req.process_cmdline (λ s h. h) p.process_cmdline,
        (
          option_fits (codes "--process-pid") (map_option show_i32 req.process_pid) (λ s h. h)
              p.process_pid,
          (
            option_fits (codes "--process-cwd") req.process_cwd (λ s h. h) p.process_cwd,
            (
              option_fits (codes "--requesting-user") req.requesting_user (λ s h. h)
                  p.requesting_user,
              (option_fits (codes "--action") req.action (λ s h. h) p.action, tt),
            ),
          ),
        ),
      ),
    ) in
    (
      p.title,
      (
        p.message,
        (
          p.secondary,
          (
            plain-to_string req.timeout,
            (
              plain-to_string req.min_time,
              (
                plain-to_string req.remember_secs,
                (sound_fits req.sound_name p.sound_name, (randomize_fits req.randomize, process)),
              ),
            ),
          ),
        ),
      ),
    )

pub given-IsWellGiven : (req : Request) → IsPlain req → IsWellGiven declared (collect (slots req))
unfolding text_eq
given-IsWellGiven req p = collect-IsWellGiven (slots req) refl (slots-fit req p) refl
