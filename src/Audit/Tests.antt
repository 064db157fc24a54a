-- ===== src/Audit/Tests.antt =====
-- The log of a fresh process.
use sentinel_cosmic.Audit.{Logs, unset, init_logger, warn, audit_emit, host}
use sentinel_cosmic.Common.{false, [], refl, ◌≡◌, ◌∷◌, true}
use sentinel_cosmic.Text.{codes}

abbrev fresh_logs : Logs
fresh_logs = record { global = unset; fallback = false; syslog = []; host_given = [] }

-- One set-up and one line; and two set-ups, behind which the line is written twice.
written_once :
    (audit_emit warn (codes "x") (init_logger false true true fresh_logs)).syslog
    ≡ (warn, codes "x") ∷ []
unfolding audit_emit init_logger
written_once = refl

written_twice :
    (audit_emit warn
      (codes "x")
      (init_logger false true true (init_logger false true true fresh_logs))).syslog
    ≡ (warn, codes "x") ∷ (warn, codes "x") ∷ []
unfolding audit_emit init_logger
written_twice = refl

-- A line that the host's logger takes is still written by this crate.
written_beside_host :
    (audit_emit warn
      (codes "x")
      (init_logger false true true (record fresh_logs { global = host }))).syslog
    ≡ (warn, codes "x") ∷ []
unfolding audit_emit init_logger
written_beside_host = refl
