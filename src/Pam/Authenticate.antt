-- ===== src/Pam/Authenticate.antt =====
-- crates/pam-sentinel/src/lib.rs: `sm_authenticate` and the steps it takes.
-- Of an audit line the session metadata, the process, the uid and the latency are left out.
pub mod Call
pub mod Success
pub mod Recorded
pub mod Tests
use sentinel_cosmic.Pam.Authenticate.Call.{AuditLine, Context, Env, Run, context_of, log_line}
use sentinel_cosmic.Common.{
  ◌&&◌, some, map_option, ◌||◌, not, ◌==◌, ◌++◌, false, ◌∷◌, List, none, Option, [], ltb, is_some,
  unwrap_or, Bool, if◌then◌else◌, ℕ,
}
use sentinel_cosmic.Config.{HeadlessAction, for_service, ServiceConfig, RememberScope, Document}
use sentinel_cosmic.Elevation.{remember_key_command}
use sentinel_cosmic.LogKv.{quote}
use sentinel_cosmic.Message.{format_message}
use sentinel_cosmic.Pam.{pam_auth_err, pam_success, pam_ignore, PamResult}
use sentinel_cosmic.Pam.BrokerClient.{ask_broker, Link}
use sentinel_cosmic.Pam.Bypass.{Bus, check_agent_bypass}
use sentinel_cosmic.Pam.Display.{DisplayEnv, detect_for_user, Entry}
use sentinel_cosmic.Pam.Helper.{run_child, Spawn, HelperRequest}
use sentinel_cosmic.Pam.ProcessInfo.{ProcessInfo, for_pid}
use sentinel_cosmic.Policy.{PolicyDecision, decide}
use sentinel_cosmic.Procfs.{caller_uid, read_proc_u32, Proc}
use sentinel_cosmic.Proto.{Request, Response, RememberKey}
use sentinel_cosmic.Proto.Frame.{Codec}
use sentinel_cosmic.Text.{Text, is_empty, codes}
use sentinel_cosmic.Text.Decimal.{u32_max}
use sentinel_cosmic.Verdict.{Outcome, is_allow, Verdict}
use sentinel_cosmic.Pam.Helper

abbrev pub no_dialog : PamResult → List AuditLine → Run
no_dialog rc audit = record { result = rc; dialog = none; recorded = none; audit = audit }

abbrev headless_line : Context → List AuditLine
headless_line c = log_line c (codes "auth.headless") (codes "no-wayland")

-- `handle_headless`.
unfoldable pub handle_headless : Context → HeadlessAction → Run
unfolding log_line
handle_headless c HeadlessAction.allow =
    no_dialog pam_success (headless_line c ++ log_line c (codes "auth.allow") (codes "headless"))
handle_headless c HeadlessAction.deny =
    no_dialog pam_auth_err (headless_line c ++ log_line c (codes "auth.deny") (codes "headless"))
handle_headless c HeadlessAction.password = no_dialog pam_ignore (headless_line c)

-- The window for which the dialog offers to remember.
unfoldable pub window_of : Context → ℕ
window_of c = if is_some c.key then c.cfg.remember_seconds else 0

-- A live grant at the broker.
unfoldable pub is_remembered : Env → Context → Bool
unfolding ask_broker
is_remembered env c = ltb 0 c.cfg.remember_seconds && elim c.key [
  | none ↦ false
  | some key ↦ ask_broker env.requests env.responses env.check_link key c.cfg.remember_seconds
]

unfoldable pub request_of : Env → Context → HelperRequest
unfolding format_message window_of
request_of env c =
    let fill = λ (template : Text). format_message template c.user c.service c.process.name in
    record {
      cfg = c.cfg;
      user = c.user;
      service = c.service;
      process = c.process;
      title = fill c.cfg.title;
      message = fill c.cfg.message;
      secondary = fill c.cfg.secondary;
      target_uid = c.uid;
      requesting_pid = env.pid;
      remember_secs = window_of c;
    }

abbrev event_of : Outcome → Text
event_of Outcome.allow = codes "auth.allow"
event_of Outcome.deny = codes "auth.deny"
event_of Outcome.timeout = codes "auth.timeout"

-- The log's event, and the two values that `spawn_dialog` returns.
abbrev dialog_event : Helper.Result Verdict → Text
dialog_event (Helper.ok v) = event_of v.outcome
dialog_event (Helper.err e) = codes "auth.error"

unfoldable pub dialog_result : Helper.Result Verdict → PamResult × Bool
unfolding is_allow
dialog_result (Helper.ok v) =
    if is_allow v.outcome then (pam_success, v.remember) else (pam_auth_err, false)
dialog_result (Helper.err e) = (pam_auth_err, false)

-- `spawn_dialog`, and the grant that a tick records.
unfoldable pub ask_user : Env → Context → Run
unfolding dialog_result request_of window_of run_child log_line
ask_user env c =
    let answer = run_child env.child in
    let (rc, remember) = dialog_result answer in
    record {
      result = rc;
      dialog = some (request_of env c);
      recorded = if remember && ltb 0 (window_of c) then c.key else none;
      audit = log_line c (dialog_event answer) (codes "dialog");
    }

-- Behind `check_policy`.
unfoldable pub by_policy : Env → Context → PolicyDecision → Run
unfolding log_line is_remembered ask_user
by_policy env c PolicyDecision.allow =
    no_dialog pam_success (log_line c (codes "auth.allow") (codes "policy"))
by_policy env c PolicyDecision.deny =
    no_dialog pam_auth_err (log_line c (codes "auth.deny") (codes "policy"))
by_policy env c PolicyDecision.ask =
    if is_remembered env c
    then no_dialog pam_success (log_line c (codes "auth.allow") (codes "remember"))
    else ask_user env c

unfoldable pub has_display : Env → Context → Bool
unfolding detect_for_user
has_display env c = (detect_for_user env.display (env.run_user c.uid) c.uid).1

unfoldable pub policy_decision : Context → PolicyDecision
unfolding decide
policy_decision c = decide c.cfg.policy c.process.policy_exe none

-- What is left once the agent has handed out no approval.
unfoldable pub by_config : Env → Context → Run
unfolding has_display by_policy policy_decision handle_headless
by_config env c =
    if not c.cfg.enabled
    then no_dialog pam_ignore []
    else if has_display env c
    then by_policy env c (policy_decision c)
    else handle_headless c c.cfg.headless_action

bypass_line : AuditLine
bypass_line = record {
  event = codes "auth.allow";
  source = codes "bypass";
  user = [];
  service = [];
}

-- The agent's approval, or everything behind it.
abbrev by_bypass : Env → Option PamResult → Run
by_bypass env (some rc) = no_dialog rc (bypass_line ∷ [])
by_bypass env none = by_config env (context_of env)

-- `sm_authenticate`.
unfoldable pub sm_authenticate : Env → Run
unfolding check_agent_bypass by_config context_of bypass_line
sm_authenticate env = by_bypass env (check_agent_bypass env.bus)
