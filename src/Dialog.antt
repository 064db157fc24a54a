-- ===== src/Dialog.antt =====
-- crates/sentinel-helper-kde/src/bridge.rs: the controller behind the dialog. The progress bar's fraction,
-- a floating-point number that only the picture uses, is left out.
pub mod Gate
pub mod Clock
pub mod Deadline
pub mod Startup
pub mod Tests
use sentinel_cosmic.Audit.Emit.{most}
use sentinel_cosmic.Basename.{resolve_icon_name}
use sentinel_cosmic.Common.{
  if◌then◌else◌, ◌*◌, ◌-◌, ◌++◌, ◌==◌, some, length, ◌%◌, is_some, min, ◌||◌, take, ltb, Option,
  ◌+◌, [], ◌/◌, not, or_else, ◌∷◌, true, unwrap_or, ◌&&◌, ℕ, List, leb, false, none, Bool,
}
use sentinel_cosmic.Grants.{secs, elapsed}
use sentinel_cosmic.I18n.{remember_label_template}
use sentinel_cosmic.Text.{codes, Text}
use sentinel_cosmic.Text.Decimal.{to_string, ℤ, pos}
use sentinel_cosmic.Verdict.{Outcome, Verdict}

-- The arguments that the controller reads.
pub record Args : Type 0 where
  pub title : Text
  pub message : Text
  pub secondary : Text
  pub process_exe : Option Text
  pub process_cmdline : Option Text
  pub process_pid : Option ℤ
  pub process_cwd : Option Text
  pub requesting_user : Option Text
  pub action : Option Text
  pub timeout : ℕ
  pub min_time : ℕ
  pub randomize : Bool
  pub remember_secs : ℕ

pub record Controller : Type 0 where
  pub title : Text
  pub message : Text
  pub secondary : Text
  pub process_exe : Text
  pub process_cmdline : Text
  pub process_pid : ℤ
  pub process_cwd : Text
  pub requesting_user : Text
  pub action : Text
  pub icon_name : Text
  pub has_details : Bool
  pub allow_first : Bool
  pub timeout_secs : ℕ
  pub min_time_ms : ℕ
  pub remaining_secs : ℕ
  pub elapsed_ms : ℕ
  pub allow_enabled : Bool
  pub show_details : Bool
  pub remember_offered : Bool
  pub remember_label : Text
  pub remember_checked : Bool

abbrev pub i32_max : ℕ
i32_max = 2147483647

-- `clip`: at most `most` characters, with an ellipsis where something is cut.
unfoldable pub clip : Text → ℕ → Text
clip s most = if leb (length s) most then s else take most s ++ (0x2026 ∷ [])

-- `tmpl.replace("%1", &dur)`.
unfoldable pub fill_in : Text → Text → Text
fill_in dur [] = []
fill_in dur (c ∷ []) = c ∷ []
fill_in dur (c ∷ d ∷ s) =
    let behind = fill_in dur s in
    let next = fill_in dur (d ∷ s) in if c == b'%' && d == b'1' then dur ++ behind else c ∷ next

unfoldable pub label_of : ℕ → Text → Text
unfolding fill_in to_string remember_label_template
label_of secs lang =
    if ltb 0 secs
    then fill_in
        (if leb 60 secs
          then to_string (secs / 60) ++ codes " min"
          else to_string secs ++ codes " s")
        (remember_label_template lang)
    else []

-- `DialogControllerRust::default`. The coin is what `random_bool` gives.
unfoldable pub start : Args → Bool → Text → Controller
unfolding clip label_of resolve_icon_name
start a coin lang = record {
  title = clip a.title 1024;
  message = clip a.message 2048;
  secondary = clip a.secondary 1024;
  process_exe = clip (unwrap_or a.process_exe []) 512;
  process_cmdline = clip (unwrap_or a.process_cmdline []) 4096;
  process_pid = unwrap_or a.process_pid (pos 0);
  process_cwd = clip (unwrap_or a.process_cwd []) 4096;
  requesting_user = clip (unwrap_or a.requesting_user []) 256;
  action = clip (unwrap_or a.action []) 1024;
  icon_name = unwrap_or (resolve_icon_name a.process_exe) [];
  has_details =
      is_some a.process_cmdline
      || (is_some a.process_pid
          || (is_some a.process_cwd || (is_some a.requesting_user || is_some a.action)));
  allow_first = if a.randomize then coin else true;
  timeout_secs = min a.timeout i32_max;
  min_time_ms = min a.min_time i32_max;
  remaining_secs = min a.timeout i32_max;
  elapsed_ms = 0;
  allow_enabled = a.min_time == 0;
  show_details = false;
  remember_offered = ltb 0 a.remember_secs;
  remember_label = label_of a.remember_secs lang;
  remember_checked = false;
}

-- An i32 is kept as its value modulo 2^32; the upper half is negative. `e >= m` for an m that is not.
abbrev pub at_least : ℕ → ℕ → Bool
at_least e m = ltb e 2147483648 && leb m e

-- `(total - elapsed).max(0)`, in seconds, rounded up.
abbrev pub seconds_left : ℕ → ℕ → ℕ
seconds_left total elapsed =
    let d = (total + (4294967296 - elapsed)) % 4294967296 in
    if ltb d 2147483648 then (d + 999) / 1000 else 0

abbrev pub bare : Outcome → Verdict
bare o = record { outcome = o; remember = false }

abbrev pub total_of : ℕ → ℕ
total_of timeout = min (timeout * 1000) i32_max

-- `tick`: 100 milliseconds pass. The verdict is what the process finishes with, if it finishes.
unfoldable pub tick : Controller → Controller × Option Verdict
tick c =
    let elapsed = (c.elapsed_ms + 100) % 4294967296 in
    let c' = record c {
      elapsed_ms = elapsed;
      allow_enabled = c.allow_enabled || at_least elapsed c.min_time_ms;
      remaining_secs =
          if ltb 0 c.timeout_secs
          then seconds_left (total_of c.timeout_secs) elapsed
          else c.remaining_secs;
    } in
    (
      c',
      if ltb 0 c.timeout_secs && at_least elapsed (total_of c.timeout_secs)
          then some (bare Outcome.timeout)
          else none,
    )

-- `allow`, `deny` and `toggle_details`.
unfoldable pub allow_pressed : Controller → Controller × Option Verdict
allow_pressed c = (
  c,
  if c.allow_enabled
      then some
          (record { outcome = Outcome.allow; remember = c.remember_offered && c.remember_checked })
      else none,
)

unfoldable pub deny_pressed : Controller → Controller × Option Verdict
deny_pressed c = (c, some (bare Outcome.deny))

unfoldable pub toggle_details : Controller → Controller
toggle_details c = record c { show_details = not c.show_details }

-- What happens to the dialog. The last is the QML scene or the event loop ending: `finish_deny`.
pub data Input : Type 0 where
  ticks : Input
  presses_allow : Input
  presses_deny : Input
  toggles : Input
  checks : Bool → Input
  closes : Input

unfoldable pub step : Controller → Input → Controller × Option Verdict
unfolding tick allow_pressed deny_pressed toggle_details
step c ticks = tick c
step c presses_allow = allow_pressed c
step c presses_deny = deny_pressed c
step c toggles = (toggle_details c, none)
step c (checks b) = (record c { remember_checked = b }, none)
step c closes = (c, some (bare Outcome.deny))

-- The process ends with the first verdict.
unfoldable pub play : Controller → List Input → Option Verdict
unfolding step
play c [] = none
play c (i ∷ is) = let (c', o) = step c i in or_else o (play c' is)
