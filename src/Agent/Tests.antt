-- ===== src/Agent/Tests.antt =====
-- Tests of the agent, and the theorems at concrete runs.
use sentinel_cosmic.Agent.Cache.{
  Remembered, cache_is_fresh_iff, cache_after, Matching, cache_is_fresh,
}
use sentinel_cosmic.Agent.Helper1.{
  run_helper1, Read, Succeeds, no_connection, run_helper1_success, conversation, Attempt,
}
use sentinel_cosmic.Agent.HelperUi.{line, run_helper, Event}
use sentinel_cosmic.Agent.Identity.{Identity, pick, uid_of, pick_iff}
use sentinel_cosmic.Agent.Queue.{new_approval, take_one, ApprovalQueue}
use sentinel_cosmic.Agent.Queue.Accounting.{
  Ledger, ledger, Calls, pushes, answered, takes, queue_after,
}
use sentinel_cosmic.Agent.Session.{
  ok, run, request_of, State, AuthInputs, helper1_failed, Env, is_remembered,
}
use sentinel_cosmic.Agent.Session.Consent.{
  verdict_of, run_success, ok_inj, decision, Consented, run_without_consent,
}
use sentinel_cosmic.Agent.Session.Leftover.{run_error_leaves}
use sentinel_cosmic.Broker.Keys.{Lacks}
use sentinel_cosmic.Common.{
  inl, ◌∙◌, ◌↔◌, ◌∷◌, false, ap, sym, ◌≡◌, inr, true, ◌≢◌, none, some, refl, [], List, ℕ, Any, All,
  arith,
}
use sentinel_cosmic.Config.{
  ServiceConfig, default_message, HeadlessAction, RememberScope, default_title,
}
use sentinel_cosmic.Grants.{secs, capped}
use sentinel_cosmic.Policy.{decide, PolicyDecision, empty_policy}
use sentinel_cosmic.Text.{codes, Text}
use sentinel_cosmic.Text.Decimal.{pos}
use sentinel_cosmic.Verdict.{Verdict, Outcome}
use sentinel_cosmic.Agent.HelperUi
use sentinel_cosmic.Agent.Helper1
use sentinel_cosmic.Agent.Helper1

abbrev pub config : ServiceConfig
config = record {
  enabled = true;
  timeout = 30;
  randomize_buttons = false;
  headless_action = HeadlessAction.password;
  show_process_info = true;
  log_attempts = true;
  min_display_time_ms = 500;
  remember_seconds = 60;
  remember_scope = RememberScope.command;
  title = default_title;
  message = default_message;
  secondary = [];
  sound_name = [];
  policy = empty_policy;
  notify_on_deny = true;
  notify_on_timeout = true;
}

abbrev pub inputs : AuthInputs
inputs = record {
  action_id = codes "org.example.run";
  cookie = codes "cookie";
  username = codes "ada";
  cfg = config;
  process_exe = some (codes "/usr/bin/pacman");
  process_cmdline = some (codes "/usr/bin/pacman -Syu");
  process_pid = some (pos 42);
  process_cwd = none;
  requesting_user = some (codes "ada");
}

abbrev pub idle : State
idle = record { queue = []; cache = []; notices = []; audit = [] }

abbrev pub success : Attempt
success =
    conversation
      (Helper1.line (codes "PAM_TEXT_INFO hello") ∷ Helper1.line (codes "SUCCESS\n") ∷ [])

abbrev pub refusal : Attempt
refusal = conversation (Helper1.line (codes "FAILURE") ∷ Helper1.line (codes "SUCCESS") ∷ [])

abbrev pub allowing : Env
allowing = record {
  now_check = secs 100;
  now_record = secs 110;
  now_push = secs 110;
  canned_dialog = none;
  dialog = some (line (codes "loading") ∷ line (codes "ALLOW REMEMBER") ∷ []);
  takes = secs 110 ∷ [];
  canned_helper1 = none;
  helper1 = success;
}

abbrev pub refused : Env
refused = record allowing { takes = []; helper1 = refusal }

abbrev unreachable : Env
unreachable = record allowing { takes = []; helper1 = no_connection }

abbrev denying : Env
denying = record allowing { dialog = some (line (codes "DENY") ∷ []) }

allowed_run : (run allowing inputs idle).1 ≡ ok true
unfolding run
allowed_run = refl

refused-run : (run refused inputs idle).1 ≡ ok false
unfolding run
refused-run = refl

denied_run : (run denying inputs idle).1 ≡ ok false
unfolding run
denied_run = refl

asked : decision inputs ≡ PolicyDecision.ask
unfolding decide
asked = refl

not_yet : is_remembered allowing inputs idle ≡ false
unfolding is_remembered
not_yet = refl

said_allow :
    verdict_of allowing inputs ≡ HelperUi.ok (record { outcome = Outcome.allow; remember = true })
unfolding run_helper
said_allow = refl

said_deny :
    verdict_of denying inputs ≡ HelperUi.ok (record { outcome = Outcome.deny; remember = false })
unfolding run_helper
said_deny = refl

agreed : Consented allowing inputs idle
agreed = inr (inr (record { outcome = Outcome.allow; remember = true }, asked, said_allow, refl))

agreed_refused : Consented refused inputs idle
unfolding run_helper
agreed_refused = inr (inr (record { outcome = Outcome.allow; remember = true }, asked, refl, refl))

agreed_unreachable : Consented unreachable inputs idle
unfolding run_helper
agreed_unreachable =
    inr (inr (record { outcome = Outcome.allow; remember = true }, asked, refl, refl))

not_agreed : ¬ Consented denying inputs idle
unfolding decide is_remembered run_helper
not_agreed (inl e) = cc (e, asked)
not_agreed (inr (inl (a, t))) = cc t
not_agreed (inr (inr (v, a, e, o))) =
    cc (o, ap (λ (w : Verdict). w.outcome) (ok_inj (sym said_deny ∙ e)))

run_success_example : Consented allowing inputs idle × (run_helper1 none success ≡ Helper1.ok true)
run_success_example = run_success allowing inputs idle allowed_run

run_without_consent_example :
    ((run denying inputs idle).0.queue ≡ [])
    × ((run denying inputs idle).0.cache ≡ [])
    × ((run denying inputs idle).1 ≢ ok true)
run_without_consent_example = run_without_consent denying inputs idle not_agreed

failed_connection : run_helper1 none no_connection ≡ Helper1.err
unfolding run_helper1
failed_connection = refl

run_error_leaves_example :
    ((run unreachable inputs idle).1 ≡ helper1_failed)
    × ((run unreachable inputs idle).0.queue ≡ new_approval (secs 110) inputs.action_id ∷ [])
run_error_leaves_example =
    run_error_leaves unreachable inputs idle agreed_unreachable failed_connection refl

abbrev two_approvals : ApprovalQueue
two_approvals = new_approval 0 (codes "old") ∷ new_approval (secs 5) (codes "new") ∷ []

takes_live : take_one (secs 5) two_approvals ≡ ([], some (new_approval (secs 5) (codes "new")))
unfolding take_one
takes_live = refl

abbrev calls : Calls
calls = (secs 1, takes) ∷ (secs 1, takes) ∷ (secs 1, pushes (codes "a")) ∷ []

once : answered calls ≡ 1
unfolding answered queue_after
once = refl

ledger_example : Ledger calls
ledger_example = ledger calls

abbrev remembered : Remembered
remembered = (secs 20, codes "org.a", codes "ls") ∷ (secs 10, codes "org.a", codes "rm x") ∷ []

abbrev events : List Event
events = line (codes "loading") ∷ line (codes "ALLOW") ∷ line (codes "DENY") ∷ []

first_wins :
    run_helper none (some events) (request_of inputs)
    ≡ HelperUi.ok (record { outcome = Outcome.allow; remember = false })
unfolding run_helper
first_wins = refl

run_helper1_success_example :
    (run_helper1 none success ≡ Helper1.ok true)
    ↔ ((rs : List Helper1.Read) × (success ≡ conversation rs) × Succeeds rs)
run_helper1_success_example = run_helper1_success success

abbrev offered : List Identity
offered =
    record { kind = codes "unix-group"; details = (codes "gid", some 1000) ∷ [] }
    ∷ record { kind = codes "unix-user"; details = (codes "uid", some 0) ∷ [] }
    ∷ record { kind = codes "unix-user"; details = (codes "uid", some 1000) ∷ [] }
    ∷ []

abbrev own : ℕ
own = 1000

own_picked : pick offered 1000 ≡ some 1000
unfolding pick
own_picked = refl

abbrev two_identities : List Identity
two_identities =
    record { kind = codes "unix-group"; details = (codes "gid", some 1000) ∷ [] }
    ∷ record { kind = codes "unix-user"; details = (codes "uid", some 1000) ∷ [] }
    ∷ []

pick_iff_example :
    (pick two_identities 1000 ≡ some 1000)
    ↔ ((◌≡◌ {A = ℕ} 1000 1000) × Any (λ i. uid_of i ≡ some 1000) two_identities)
pick_iff_example = pick_iff two_identities 1000 1000

abbrev remembered_once : List (ℕ × Text × Text)
remembered_once = (5, codes "org.example.mount", codes "mount /dev/sda") ∷ []

nul_free_history : All (λ e. Lacks 0 e.1) remembered_once
nul_free_history = ground arith

cache_is_fresh_iff_example :
    (cache_is_fresh 9
        (cache_after remembered_once)
        (codes "org.example.mount")
        (codes "mount /dev/sda")
        60
      ≡ true)
    ↔ Any
        (Matching 9 (capped 60) (codes "org.example.mount") (codes "mount /dev/sda"))
        remembered_once
cache_is_fresh_iff_example =
    cache_is_fresh_iff 9 remembered_once (codes "org.example.mount") (codes "mount /dev/sda") 60
      (omega arith, tt) nul_free_history (ground arith)
