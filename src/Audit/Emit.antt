-- ===== src/Audit/Emit.antt =====
-- Where an audit line goes.
use sentinel_cosmic.Audit.{
  Level, audit_emit, host, severity, init_logger, unset, Logs, rank, info, warn, error, trace,
  debug,
}
use sentinel_cosmic.Common.{◌≡◌, false, true, if◌then◌else◌, Bool, ◌≤◌, ◌∷◌, leb, arith, refl}
use sentinel_cosmic.Text.{Text}

-- How a process stands before its log is set up: nothing logged by this crate, and the facade either free
-- or taken by the program that loaded it.
pub data IsFresh (s : Logs) : Type 0 where
  free : s.global ≡ unset → s.fallback ≡ false → IsFresh s
  taken : s.global ≡ host → s.fallback ≡ false → IsFresh s

severity_kept : (level : Level) → rank level ≤ 4 → severity level ≡ level
severity_kept error h = refl
severity_kept warn h = refl
severity_kept info h = refl
severity_kept debug h = refl
severity_kept trace h = absurd (omega (arith, h))

-- The level that a set-up lets through.
abbrev pub most : Bool → Level
most verbose = if verbose then debug else info

below_most : (verbose : Bool) (level : Level) → rank level ≤ rank (most verbose) → rank level ≤ 4
below_most true level h = omega arith
below_most false level h = omega arith

passes :
    (verbose : Bool) (level : Level)
    → rank level ≤ rank (most verbose)
    → leb (rank level) (rank (most verbose)) ≡ true
passes verbose level h = ground (arith, h)

-- If syslog can be reached, then after one set-up this crate itself writes an audit line of a level that the
-- set-up lets through to syslog once, whether the facade was free or the program that loaded the module had
-- taken it. What that program's own logger does with the line is its own affair.
pub audit_emit_once :
    (s : Logs) (verbose : Bool) (level : Level) (msg : Text)
    → IsFresh s
    → rank level ≤ rank (most verbose)
    → (audit_emit level msg (init_logger verbose true true s)).syslog ≡ (level, msg) ∷ s.syslog
unfolding audit_emit init_logger
audit_emit_once s verbose level msg (free g f) h = rw (g, f) (rw (passes verbose level h))
audit_emit_once s verbose level msg (taken g f) h =
    rw (g, severity_kept level (below_most verbose level h))

-- A second set-up is not without effect: where the facade was free and syslog can be reached, it opens the
-- fallback beside the logger that the first registered, and each audit line is then written twice.
pub init_twice_doubles :
    (s : Logs) (verbose : Bool) (level : Level) (msg : Text)
    → s.global ≡ unset
    → rank level ≤ rank (most verbose)
    → (audit_emit level msg
        (init_logger verbose true true (init_logger verbose true true s))).syslog
      ≡ (severity level, msg) ∷ (level, msg) ∷ s.syslog
unfolding audit_emit init_logger
init_twice_doubles s verbose level msg g h = rw g (rw (passes verbose level h))
