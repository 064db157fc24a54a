-- ===== src/Pam/Authenticate/Tests.antt =====
-- A whole call of the PAM module, and its theorems at it.
use sentinel_cosmic.Pam.Authenticate.Call.{Env, context_of}
use sentinel_cosmic.Common.{true, none, [], ◌≡◌, ◌↔◌, refl, ◌⊎◌, false, ◌∷◌, some, ◌≢◌}
use sentinel_cosmic.Config.{Document, defaults}
use sentinel_cosmic.Pam.{pam_success}
use sentinel_cosmic.Pam.Authenticate.{sm_authenticate}
use sentinel_cosmic.Pam.Authenticate.Recorded.{sm_authenticate_recorded, Ticked}
use sentinel_cosmic.Pam.Authenticate.Success.{ConfigGrounds, sm_authenticate_success}
use sentinel_cosmic.Pam.Bypass.{Approved}
use sentinel_cosmic.Pam.Helper.{ready, bytes, forked, Spawn}
use sentinel_cosmic.Pam.Tests.{sudo_proc, no_agent}
use sentinel_cosmic.Proto.{Request, RememberKey, Response}
use sentinel_cosmic.Proto.Frame.{Codec}
use sentinel_cosmic.Text.{codes}
use sentinel_cosmic.Text.Decimal.{u32_max}

abbrev upgrade : RememberKey
upgrade = record {
  loginuid = 1000;
  sessionid = 3;
  service = codes "sudo";
  command = codes "pacman -Syu";
}

abbrev null_requests : Codec Request
null_requests = record { to_allocvec = λ m. none; from_bytes = λ b. none }

abbrev null_responses : Codec Response
null_responses = record { to_allocvec = λ m. none; from_bytes = λ b. none }

abbrev document : Document
document = record defaults {
  services =
      (
        codes "sudo",
        record {
          enabled = none;
          timeout = none;
          randomize = none;
          remember_seconds = some 60;
          remember_scope = none;
        },
      )
      ∷ [];
}

abbrev ticked_answer : Spawn
ticked_answer = forked (ready (bytes (codes "ALLOW REMEMBER\n")))

abbrev env : Env
env = record {
  bus = no_agent;
  pam_service = some (codes "sudo");
  name_of_uid = λ u. none;
  document = document;
  proc = sudo_proc;
  pid = 42;
  ppid = 41;
  own_uid = 0;
  display = record { wayland_display = none; xdg_runtime_dir = none };
  run_user = λ u. some (
      record { name = some (codes "wayland-0.lock"); is_socket = false }
      ∷ record { name = some (codes "wayland-0"); is_socket = true }
      ∷ []);
  requests = null_requests;
  responses = null_responses;
  check_link = record {
    connects = false;
    timeouts_set = true;
    writer = record { sent = []; room = 0 };
    reader = record { input = []; allocated = 0 };
  };
  child = ticked_answer;
}

let_in : (sm_authenticate env).result ≡ pam_success
unfolding sm_authenticate
let_in = refl

grant_recorded : (sm_authenticate env).recorded ≡ some upgrade
unfolding sm_authenticate
grant_recorded = refl

sm_authenticate_success_example :
    ((sm_authenticate env).result ≡ pam_success)
    ↔ (Approved env.bus ⊎ ((¬ Approved env.bus) × ConfigGrounds env (context_of env)))
sm_authenticate_success_example = sm_authenticate_success env

sm_authenticate_recorded_example :
    Ticked env (context_of env) upgrade (sm_authenticate env)
    × (upgrade.loginuid ≢ u32_max)
    × (upgrade.sessionid ≢ u32_max)
sm_authenticate_recorded_example = sm_authenticate_recorded env upgrade grant_recorded
