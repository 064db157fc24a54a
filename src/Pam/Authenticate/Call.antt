-- ===== src/Pam/Authenticate/Call.antt =====
-- crates/pam-sentinel/src/lib.rs: what a call of `sm_authenticate` meets, does and shares between its steps.
-- Of an audit line the session metadata, the process, the uid and the latency are left out.
use sentinel_cosmic.Proto.{Request}
use sentinel_cosmic.Common.{
  List, map_option, if◌then◌else◌, ℕ, Option, some, ◌==◌, [], ◌||◌, none, ◌∷◌, unwrap_or,
}
use sentinel_cosmic.Config.{RememberScope, for_service, ServiceConfig, Document}
use sentinel_cosmic.Elevation.{remember_key_command}
use sentinel_cosmic.LogKv.{quote}
use sentinel_cosmic.Pam.{PamResult}
use sentinel_cosmic.Pam.BrokerClient.{Link}
use sentinel_cosmic.Pam.Bypass.{Bus}
use sentinel_cosmic.Pam.Display.{Entry, DisplayEnv}
use sentinel_cosmic.Pam.Helper.{HelperRequest, Spawn}
use sentinel_cosmic.Pam.ProcessInfo.{ProcessInfo, for_pid}
use sentinel_cosmic.Procfs.{Proc, caller_uid, read_proc_u32}
use sentinel_cosmic.Proto.{Response, RememberKey}
use sentinel_cosmic.Proto.Frame.{Codec}
use sentinel_cosmic.Text.{is_empty, Text, codes}
use sentinel_cosmic.Text.Decimal.{u32_max}

-- What the call meets outside the module: PAM and the bus, the configuration that `load` reads, /proc,
-- the display, the broker at its two round trips, and the dialog's process.
pub record Env : Type 0 where
  pub bus : Bus
  pub pam_service : Option Text
  pub name_of_uid : ℕ → Option Text
  pub document : Document
  pub proc : Proc
  pub pid : ℕ
  pub ppid : ℕ
  pub own_uid : ℕ
  pub display : DisplayEnv
  pub run_user : ℕ → Option (List Entry)
  pub requests : Codec Request
  pub responses : Codec Response
  pub check_link : Link
  pub child : Spawn

pub record AuditLine : Type 0 where
  pub event : Text
  pub source : Text
  pub user : Text
  pub service : Text

-- What a call does: its result, the request for the dialog it opened, the key it asked the broker to
-- record, and what it logged, oldest line first.
pub record Run : Type 0 where
  pub result : PamResult
  pub dialog : Option HelperRequest
  pub recorded : Option RememberKey
  pub audit : List AuditLine

-- What the steps share.
pub record Context : Type 0 where
  pub cfg : ServiceConfig
  pub service : Text
  pub user : Text
  pub uid : ℕ
  pub process : ProcessInfo
  pub key : Option RememberKey

-- `pam_service`.
unfoldable pub service_of : Env → Text
service_of env = unwrap_or env.pam_service (codes "unknown")

abbrev pub by_uid : Env → ℕ → Text
by_uid env uid = unwrap_or (env.name_of_uid uid) (codes "unknown")

-- `resolve_user`.
unfoldable pub resolve_user : Env → ℕ → Text
resolve_user env uid = elim env.bus.pam_user [
  | none ↦ by_uid env uid
  | some name ↦ if is_empty name then by_uid env uid else name
]

-- The key of a grant: none without an audit session or for what may not be remembered.
unfoldable pub remember_key_of : ℕ → ℕ → Text → ProcessInfo → RememberScope → Option RememberKey
unfolding remember_key_command
remember_key_of loginuid sessionid service process scope =
    if loginuid == u32_max || sessionid == u32_max
    then none
    else map_option
        (λ cmd. record {
          loginuid = loginuid;
          sessionid = sessionid;
          service = service;
          command = remember_key_command cmd scope;
        })
        process.remember_command

unfoldable pub context_of : Env → Context
unfolding service_of resolve_user remember_key_of for_service caller_uid for_pid read_proc_u32
context_of env =
    let service = service_of env in
    let cfg = for_service env.document service in
    let uid = caller_uid env.proc env.ppid env.own_uid in
    let process = for_pid env.proc env.pid in
    record {
      cfg = cfg;
      service = service;
      user = resolve_user env uid;
      uid = uid;
      process = process;
      key =
          remember_key_of (read_proc_u32 env.proc.loginuid env.ppid)
            (read_proc_u32 env.proc.sessionid env.ppid) service process cfg.remember_scope;
    }

-- A line of the log, where the configuration wants it.
unfoldable pub log_line : Context → Text → Text → List AuditLine
unfolding quote
log_line c event source =
    if c.cfg.log_attempts
    then record { event = event; source = source; user = quote c.user; service = quote c.service }
      ∷ []
    else []
