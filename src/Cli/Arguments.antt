-- ===== src/Cli/Arguments.antt =====
-- crates/sentinel-shared/src/cli.rs: the arguments that `Args` declares, and what their values are read as.
-- clap, which turns an argument vector into the arguments it gives, is a parameter.
pub mod Slots
pub mod Numbers
pub mod Tests
use sentinel_cosmic.Agent.Session.{remember_secs}
use sentinel_cosmic.Common.{
  none, any, ℕ, some, if◌then◌else◌, Option, All, or_else, not, all, List, unwrap_or, ◌∷◌, leb,
  ◌&&◌, Bool, [], ◌≡◌, true, map_option, ◌==◌, false, ◌>>=◌,
}
use sentinel_cosmic.Dialog.{Args}
use sentinel_cosmic.Dialog.Startup.{StartArgs}
use sentinel_cosmic.Text.{Text, codes, text_eq}
use sentinel_cosmic.Text.Decimal.{u32_max, read_number, parse_i32, ℤ}

-- Whether an argument takes a value, and the argument that it cannot stand beside.
pub data Kind : Type 0 where
  with_value : Kind
  switch : Kind

pub record CliArg : Type 0 where
  pub name : Text
  pub kind : Kind
  pub conflicts_with : Option Text

abbrev takes_value : Text → CliArg
takes_value name = record { name = name; kind = with_value; conflicts_with = none }

-- The arguments of `Args`.
unfoldable pub declared : List CliArg
declared =
    takes_value (codes "--title")
    ∷ takes_value (codes "--message")
    ∷ takes_value (codes "--secondary")
    ∷ takes_value (codes "--process-exe")
    ∷ takes_value (codes "--process-cmdline")
    ∷ takes_value (codes "--process-pid")
    ∷ takes_value (codes "--process-cwd")
    ∷ takes_value (codes "--requesting-user")
    ∷ takes_value (codes "--action")
    ∷ takes_value (codes "--timeout")
    ∷ takes_value (codes "--min-time")
    ∷ record { name = codes "--randomize"; kind = switch; conflicts_with = none }
    ∷ record { name = codes "--windowed"; kind = switch; conflicts_with = none }
    ∷ record {
      name = codes "--layer-shell";
      kind = switch;
      conflicts_with = some (codes "--windowed");
    }
    ∷ takes_value (codes "--sound-name")
    ∷ takes_value (codes "--remember-secs")
    ∷ []

-- The arguments that were given, in their order, each with its value if it takes one.
abbrev pub Given : Type 0
Given = List (Text × Option Text)

unfoldable pub value_of : Given → Text → Option Text
unfolding text_eq
value_of [] name = none
value_of ((n, v) ∷ g) name = or_else (if text_eq n name then v else none) (value_of g name)

unfoldable pub is_given : Given → Text → Bool
unfolding text_eq
is_given g name = any (λ a. text_eq a.0 name) g

abbrev pub u64_max : ℕ
u64_max = 18446744073709551615

-- `s.parse` of an unsigned integer up to `upper`.
unfoldable pub parse_unsigned : ℕ → Text → Option ℕ
unfolding read_number
parse_unsigned upper [] = none
parse_unsigned upper (c ∷ s) = (if c == b'+' then read_number s else read_number (c ∷ s)) >>= λ n.
    if leb n upper then some n else none

-- A number with a default.
unfoldable pub number : Given → Text → ℕ → ℕ → Option ℕ
unfolding value_of parse_unsigned
number g name upper default = elim (value_of g name) [
  | none ↦ some default
  | some s ↦ parse_unsigned upper s
]

unfoldable pub optional_number : Given → Text → Option (Option ℤ)
unfolding value_of parse_i32
optional_number g name = elim (value_of g name) [
  | none ↦ some none
  | some s ↦ map_option some (parse_i32 s)
]

abbrev text_args : Given → Option ℤ → ℕ → ℕ → ℕ → Args
text_args g process_pid timeout min_time remember_secs = record {
  title = unwrap_or (value_of g (codes "--title")) (codes "Authentication Required");
  message =
      unwrap_or (value_of g (codes "--message"))
        (codes "An application is requesting elevated privileges.");
  secondary =
      unwrap_or (value_of g (codes "--secondary"))
        (codes "Click Allow to continue or Deny to cancel.");
  process_exe = value_of g (codes "--process-exe");
  process_cmdline = value_of g (codes "--process-cmdline");
  process_pid = process_pid;
  process_cwd = value_of g (codes "--process-cwd");
  requesting_user = value_of g (codes "--requesting-user");
  action = value_of g (codes "--action");
  timeout = timeout;
  min_time = min_time;
  randomize = is_given g (codes "--randomize");
  remember_secs = remember_secs;
}

-- The record that the arguments make, with their types and defaults; none where a value is not of its type.
unfoldable pub from_matches : Given → Option (Args × StartArgs)
unfolding value_of is_given number optional_number
from_matches g = optional_number g (codes "--process-pid") >>= λ process_pid.
    number g (codes "--timeout") u64_max 30 >>= λ timeout.
    number g (codes "--min-time") u64_max 500 >>= λ min_time.
    number g (codes "--remember-secs") u32_max 0 >>= λ remember_secs. some (
      text_args g process_pid timeout min_time remember_secs,
      record {
        sound_name = unwrap_or (value_of g (codes "--sound-name")) [];
        windowed = is_given g (codes "--windowed");
        layer_shell = is_given g (codes "--layer-shell");
      },
    )

-- `cli::parse`; none where the process exits with an error.
unfoldable pub parse :
    (List CliArg → List Text → Option Given) → List Text → Option (Args × StartArgs)
unfolding declared from_matches
parse clap argv = clap declared argv >>= from_matches

-- How arguments are spelt on a command line.
abbrev pub command_line : Given → List Text
command_line [] = []
command_line ((name, none) ∷ g) = name ∷ command_line g
command_line ((name, some v) ∷ g) = name ∷ v ∷ command_line g

-- Whether a text does not begin with a hyphen.
abbrev pub plain : Text → Bool
plain [] = true
plain (c ∷ s) = not (c == b'-')

-- Whether an argument of a kind may have a value: a plain one if it takes one, and none if it does not.
abbrev pub suits : Kind → Option Text → Bool
suits with_value none = false
suits with_value (some s) = plain s
suits switch none = true
suits switch (some s) = false

-- Whether an argument is declared, and its value suits its kind.
abbrev pub fits : List CliArg → Text → Option Text → Bool
fits [] name v = false
fits (f ∷ fs) name v =
    let rest = fits fs name v in if text_eq f.name name then suits f.kind v else rest

abbrev pub distinct : Given → Bool
distinct [] = true
distinct ((name, v) ∷ g) = not (is_given g name) && distinct g

abbrev pub unconflicted : List CliArg → Given → Bool
unconflicted fs g =
    all
      (λ f. elim f.conflicts_with [
        | none ↦ true
        | some other ↦ not (is_given g f.name && is_given g other)
      ])
      fs

-- Arguments that clap takes however they are ordered: declared ones with plain values, none of them twice,
-- and no two that conflict.
pub record IsWellGiven (fs : List CliArg) (g : Given) : Type 0 where
  pub known : All (λ a. fits fs a.0 a.1 ≡ true) g
  pub once : distinct g ≡ true
  pub apart : unconflicted fs g ≡ true
