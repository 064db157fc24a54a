-- ===== src/Audit.antt =====
-- crates/sentinel-shared/src/audit.rs: the set-up of the log, and `audit_emit`, which nothing in the repository calls.
-- The `log` facade and the syslog socket are the environment's.
pub mod Emit
pub mod Tests
use sentinel_cosmic.Common.{◌||◌, if◌then◌else◌, leb, List, ◌∷◌, ℕ, Bool}
use sentinel_cosmic.Text.{Text}

-- `log::Level`, in the facade's order.
pub data Level : Type 0 where
  error : Level
  warn : Level
  info : Level
  debug : Level
  trace : Level

abbrev pub rank : Level → ℕ
rank error = 1
rank warn = 2
rank info = 3
rank debug = 4
rank trace = 5

-- Who answers the facade's calls: nobody, this crate's logger with the greatest level that passes, or the
-- program that loaded the crate.
pub data Global : Type 0 where
  unset : Global
  ours : Level → Global
  host : Global

-- The facade, whether FALLBACK is set, what this crate wrote to syslog, and the lines that the
-- logger of the program that loaded it was given, wherever that sends them; newest first.
pub record Logs : Type 0 where
  pub global : Global
  pub fallback : Bool
  pub syslog : List (Level × Text)
  pub host_given : List (Level × Text)

abbrev registered : Bool → Level → Logs → Global → Logs
registered reachable level s unset = record s { global = ours level }
registered reachable level s (ours l) = record s { fallback = reachable || s.fallback }
registered reachable level s host = record s { fallback = reachable || s.fallback }

-- `init_syslog`: whether syslog can be reached at the first and at the second attempt, and the level. The
-- facade takes a logger once.
unfoldable pub init_syslog : Bool → Bool → Level → Logs → Logs
init_syslog first second level s = if first then registered second level s s.global else s

-- The severity that the fallback gives a line.
abbrev pub severity : Level → Level
severity trace = debug
severity l = l

-- `log::log!`.
abbrev facade : Level → Text → Logs → Global → Logs
facade level msg s unset = s
facade level msg s (ours most) =
    if leb (rank level) (rank most) then record s { syslog = (level, msg) ∷ s.syslog } else s
facade level msg s host = record s { host_given = (level, msg) ∷ s.host_given }

abbrev by_fallback : Level → Text → Logs → Logs
by_fallback level msg s =
    if s.fallback then record s { syslog = (severity level, msg) ∷ s.syslog } else s

-- `audit_emit`.
unfoldable pub audit_emit : Level → Text → Logs → Logs
audit_emit level msg s = by_fallback level msg (facade level msg s s.global)

-- `init_logger` of crates/pam-sentinel/src/lib.rs, once per process, and of the agent.
unfoldable pub init_logger : Bool → Bool → Bool → Logs → Logs
unfolding init_syslog
init_logger verbose first second s = init_syslog first second (if verbose then debug else info) s
