-- ===== src/Agent/Session.antt =====
-- crates/sentinel-polkit-agent/src/session.rs: one authentication, from the policy to helper-1.
-- What the run meets outside the process is in `Env`; of an audit line the session metadata and the
-- latency are left out.
pub mod HandOff
pub mod Consent
pub mod Leftover
use sentinel_cosmic.Agent.Cache.{cache_remember, cache_is_fresh}
use sentinel_cosmic.Agent.Helper1.{Attempt, run_helper1}
use sentinel_cosmic.Agent.HelperUi.{Event, for_action, HelperError, run_helper, Request}
use sentinel_cosmic.Agent.Queue.{push, drain, ApprovalQueue, take_approval}
use sentinel_cosmic.Basename.{process_name_or_unknown}
use sentinel_cosmic.Common.{
  ltb, ◌++◌, List, unwrap_or, false, true, Option, ◌∷◌, Bool, ℕ, [], ◌&&◌, some, if◌then◌else◌,
}
use sentinel_cosmic.Config.{ServiceConfig}
use sentinel_cosmic.Elevation.{remember_key_command, remember_eligible_command}
use sentinel_cosmic.Grants.{Grants}
use sentinel_cosmic.LogKv.{quote}
use sentinel_cosmic.Policy.{PolicyDecision, decide}
use sentinel_cosmic.Text.{Text, codes}
use sentinel_cosmic.Text.Decimal.{ℤ}
use sentinel_cosmic.Verdict.{Outcome, Verdict}
use sentinel_cosmic.Agent.HelperUi
use sentinel_cosmic.Agent.Helper1

pub record AuthInputs : Type 0 where
  pub action_id : Text
  pub cookie : Text
  pub username : Text
  pub cfg : ServiceConfig
  pub process_exe : Option Text
  pub process_cmdline : Option Text
  pub process_pid : Option ℤ
  pub process_cwd : Option Text
  pub requesting_user : Option Text

-- The instants at which the run reads the clock, what the dialog's process does, how helper-1 answers,
-- and the instants at which pam_sentinel takes an approval while helper-1 runs.
pub record Env : Type 0 where
  pub now_check : ℕ
  pub now_record : ℕ
  pub now_push : ℕ
  pub canned_dialog : Option Text
  pub dialog : Option (List Event)
  pub takes : List ℕ
  pub canned_helper1 : Option Text
  pub helper1 : Attempt

pub record AuditLine : Type 0 where
  pub event : Text
  pub source : Text
  pub user : Text
  pub action : Text
  pub process : Text

-- What the run reads and writes: the shared queue and cache, the desktop notifications and the log.
pub record State : Type 0 where
  pub queue : ApprovalQueue
  pub cache : Grants
  pub notices : List (Text × Text)
  pub audit : List AuditLine

pub data Result : Type 0 where
  ok : Bool → Result
  helper1_failed : Result
  dialog_failed : HelperError → Result

unfoldable pub log_event : Text → Text → AuthInputs → State → State
unfolding quote process_name_or_unknown
log_event event source i s = record s {
  audit =
      record {
        event = event;
        source = source;
        user = quote i.username;
        action = quote i.action_id;
        process = quote (process_name_or_unknown i.process_exe);
      }
      ∷ s.audit;
}

-- The line of a refusal by helper-1, which holds no user and no process.
unfoldable pub log_refusal : AuthInputs → State → State
unfolding quote
log_refusal i s = record s {
  audit =
      record {
        event = codes "auth.error";
        source = codes "agent.helper1";
        user = [];
        action = quote i.action_id;
        process = [];
      }
      ∷ s.audit;
}

unfoldable pub notify : Bool → Text → Text → State → State
notify wanted summary body s =
    if wanted then record s { notices = (summary, body) ∷ s.notices } else s

unfoldable pub take_all : List ℕ → ApprovalQueue → ApprovalQueue
unfolding take_approval
take_all [] q = q
take_all (t ∷ ts) q = take_all ts (take_approval t q).0

-- `helper1::run(…).await.context(…)?` and what follows it: a refusal drains the queue, and an error
-- leaves the function at once.
unfoldable pub settle : Bool → AuthInputs → State → Helper1.Result Bool → State × Result
unfolding drain log_refusal
settle warns i s Helper1.err = (s, helper1_failed)
settle warns i s (Helper1.ok true) = (s, ok true)
settle warns i s (Helper1.ok false) =
    let drained = record s { queue = drain s.queue } in
    (if warns then log_refusal i drained else drained, ok false)

-- `queue.push(…)` and the hand-off to helper-1, during which approvals may be taken.
unfoldable pub hand_off : Bool → Env → AuthInputs → State → State × Result
unfolding push take_all settle run_helper1
hand_off warns env i s =
    settle warns i (record s { queue = take_all env.takes (push env.now_push s.queue i.action_id) })
      (run_helper1 env.canned_helper1 env.helper1)

-- The command that a grant would be for, and the window: 0 where the command may not be remembered.
unfoldable pub cmdline_of : AuthInputs → Text
cmdline_of i = unwrap_or i.process_cmdline []

unfoldable pub remember_secs : AuthInputs → ℕ
unfolding cmdline_of remember_eligible_command
remember_secs i = if remember_eligible_command (cmdline_of i) then i.cfg.remember_seconds else 0

unfoldable pub remember_command : AuthInputs → Text
unfolding cmdline_of remember_key_command
remember_command i = remember_key_command (cmdline_of i) i.cfg.remember_scope

unfoldable pub request_of : AuthInputs → Request
unfolding for_action remember_secs
request_of i = for_action (record {
  action_id = i.action_id;
  cfg = i.cfg;
  remember_secs = remember_secs i;
  username = i.username;
  process_exe = i.process_exe;
  process_cmdline = i.process_cmdline;
  process_pid = i.process_pid;
  process_cwd = i.process_cwd;
  requesting_user = i.requesting_user;
})

-- A grant is recorded only for a tick on a window that is open.
unfoldable pub record_tick : Env → AuthInputs → Bool → State → State
unfolding cache_remember remember_secs remember_command
record_tick env i ticked s =
    if ticked && ltb 0 (remember_secs i)
    then record s { cache = cache_remember env.now_record s.cache i.action_id (remember_command i) }
    else s

unfoldable pub after_outcome : Env → AuthInputs → State → Bool → Outcome → State × Result
unfolding log_event notify record_tick hand_off
after_outcome env i s ticked Outcome.deny = (
  notify i.cfg.notify_on_deny (codes "Authentication denied")
      (codes "You denied an elevation request from "
        ++ (process_name_or_unknown i.process_exe ++ codes "."))
      (log_event (codes "auth.deny") (codes "agent") i s),
  ok false,
)
after_outcome env i s ticked Outcome.timeout = (
  notify i.cfg.notify_on_timeout (codes "Authentication timed out")
      (codes "An elevation request from "
        ++ (process_name_or_unknown i.process_exe ++ codes " was auto-denied (no response)."))
      (log_event (codes "auth.timeout") (codes "agent") i s),
  ok false,
)
after_outcome env i s ticked Outcome.allow =
    hand_off true env i
      (record_tick env i ticked (log_event (codes "auth.allow") (codes "agent") i s))

unfoldable pub after_dialog : Env → AuthInputs → State → HelperUi.Result Verdict → State × Result
unfolding after_outcome
after_dialog env i s (HelperUi.err e) = (s, dialog_failed e)
after_dialog env i s (HelperUi.ok v) = after_outcome env i s v.remember v.outcome

unfoldable pub run_dialog : Env → AuthInputs → State → State × Result
unfolding after_dialog run_helper request_of
run_dialog env i s = after_dialog env i s (run_helper env.canned_dialog env.dialog (request_of i))

-- A live grant for the action and the command.
unfoldable pub is_remembered : Env → AuthInputs → State → Bool
unfolding cache_is_fresh remember_secs remember_command
is_remembered env i s =
    ltb 0 (remember_secs i)
    && cache_is_fresh env.now_check s.cache i.action_id (remember_command i) (remember_secs i)

unfoldable pub after_policy : Env → AuthInputs → State → PolicyDecision → State × Result
unfolding log_event notify hand_off is_remembered run_dialog
after_policy env i s PolicyDecision.deny = (
  notify i.cfg.notify_on_deny (codes "Privilege request blocked")
      (codes "Policy denied an elevation request from "
        ++ (process_name_or_unknown i.process_exe ++ codes "."))
      (log_event (codes "auth.deny") (codes "policy") i s),
  ok false,
)
after_policy env i s PolicyDecision.allow =
    hand_off true env i (log_event (codes "auth.allow") (codes "policy") i s)
after_policy env i s PolicyDecision.ask =
    if is_remembered env i s
    then hand_off false env i (log_event (codes "auth.allow") (codes "remember") i s)
    else run_dialog env i s

unfoldable pub run : Env → AuthInputs → State → State × Result
unfolding after_policy decide
run env i s = after_policy env i s (decide i.cfg.policy i.process_exe (some i.action_id))
