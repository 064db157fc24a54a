-- ===== src/Agent/Begin.antt =====
-- crates/sentinel-polkit-agent/src/agent.rs: BeginAuthentication, from polkit's request to the run of the
-- session. One request is served at a time, and the answer does not tell how the session went.
pub mod Elevated
pub mod Tests
use sentinel_cosmic.Agent.Identity.{uid_of, Identity, pick, pick_iff}
use sentinel_cosmic.Agent.Session.{Env, State, AuthInputs, run}
use sentinel_cosmic.Common.{
  some, ℕ, ◌>>=◌, ◌≡◌, not, [], ◌&&◌, Option, if◌then◌else◌, inr, inl, List, ap, ◌∷◌, Option-cases,
  or_else, none, Any,
}
use sentinel_cosmic.Config.{for_service, Document, polkit_pam_service}
use sentinel_cosmic.Elevation.{strip_elevation_prefix}
use sentinel_cosmic.I18n.{lookup}
use sentinel_cosmic.Procfs.{read_cwd, read_exe, read_cmdline, Proc, pid_of}
use sentinel_cosmic.Text.{Text, codes, text_eq, split_whitespace, is_empty}
use sentinel_cosmic.Text.Decimal.{ℤ, parse_i32}

-- What polkit sends, but the message and the icon, which are ignored.
pub record BeginRequest : Type 0 where
  pub action_id : Text
  pub details : List (Text × Text)
  pub cookie : Text
  pub identities : List Identity

-- The rest of what the agent meets: its user, the password database, /proc, and the configuration.
pub record World : Type 0 where
  pub own_uid : ℕ
  pub name_of_uid : ℕ → Option Text
  pub proc : Proc
  pub document : Document
  pub session : Env

pub data Answer : Type 0 where
  done : Answer
  no_identity : Answer
  unknown_uid : Answer

-- `details.get(key)`, and the same with an empty value left out.
unfoldable pub detail : BeginRequest → Text → Option Text
unfolding lookup
detail req key = lookup req.details key

unfoldable pub filled_detail : BeginRequest → Text → Option Text
unfolding detail
filled_detail req key = detail req key >>= λ v. if is_empty v then none else some v

unfoldable pub detail_pid : BeginRequest → Text → Option ℤ
unfolding detail parse_i32
detail_pid req key = detail req key >>= parse_i32

-- The command behind the caller, where the caller is an elevation tool that runs one.
unfoldable pub recovered : Text → Option Text
unfolding strip_elevation_prefix text_eq
recovered raw =
    let stripped = strip_elevation_prefix raw in
    if not (text_eq stripped raw) && not (is_empty stripped) then some stripped else none

unfoldable pub cmdline_shown : World → BeginRequest → Option Text
unfolding filled_detail detail_pid read_cmdline recovered
cmdline_shown w req = or_else (filled_detail req (codes "command_line")) (
    detail_pid req (codes "polkit.caller-pid")
    >>= (λ pid. read_cmdline w.proc (pid_of pid) >>= recovered))

abbrev head_of : List Text → Option Text
head_of [] = none
head_of (t ∷ ts) = some t

unfoldable pub exe_shown : World → BeginRequest → Option Text
unfolding filled_detail detail_pid cmdline_shown split_whitespace read_exe
exe_shown w req = or_else (filled_detail req (codes "program")) (
    or_else (cmdline_shown w req >>= (λ s. head_of (split_whitespace s)))
      (detail_pid req (codes "polkit.subject-pid") >>= (λ pid. read_exe w.proc (pid_of pid))))

-- The inputs of the session.
unfoldable pub inputs_of : World → BeginRequest → Text → AuthInputs
unfolding cmdline_shown exe_shown detail_pid read_cwd for_service
inputs_of w req username = record {
  action_id = req.action_id;
  cookie = req.cookie;
  username = username;
  cfg = for_service w.document polkit_pam_service;
  process_exe = exe_shown w req;
  process_cmdline = cmdline_shown w req;
  process_pid = detail_pid req (codes "polkit.subject-pid");
  process_cwd =
      detail_pid req (codes "polkit.subject-pid") >>= (λ pid. read_cwd w.proc (pid_of pid));
  requesting_user = some username;
}

abbrev as_user : World → BeginRequest → State → Option Text → State × Answer
as_user w req s none = (s, unknown_uid)
as_user w req s (some username) = ((run w.session (inputs_of w req username) s).0, done)

abbrev as_identity : World → BeginRequest → State → Option ℕ → State × Answer
as_identity w req s none = (s, no_identity)
as_identity w req s (some uid) = as_user w req s (w.name_of_uid uid)

-- `begin_authentication`.
unfoldable pub begin_authentication : World → BeginRequest → State → State × Answer
unfolding pick run inputs_of
begin_authentication w req s = as_identity w req s (pick req.identities w.own_uid)

-- A request for somebody else is refused, and changes nothing: if polkit does not offer the agent's own user
-- as a unix-user, no dialog is opened, no approval is queued and no grant recorded.
pub begin_authentication_other :
    (w : World) (req : BeginRequest) (s : State)
    → ¬ Any (λ i. uid_of i ≡ some w.own_uid) req.identities
    → begin_authentication w req s ≡ (s, no_identity)
unfolding begin_authentication
begin_authentication_other w req s n = elim (Option-cases (pick req.identities w.own_uid)) [
  | inl e ↦ ap (as_identity w req s) e
  | inr (uid, e) ↦ absurd (n ((pick_iff req.identities w.own_uid uid).0 e).1)
]
