-- ===== src/Logind/Tests.antt =====
-- A session file, and what is told of it.
use sentinel_cosmic.Common.{some, none, true, ◌≡◌, refl, if◌then◌else◌, Option, ◌∷◌, [], List}
use sentinel_cosmic.Logind.{session_info, logfmt_session_for_pid}
use sentinel_cosmic.Logind.Fields.{read_fields}
use sentinel_cosmic.Logind.Told.{logfmt_session_for_pid-Told, Told}
use sentinel_cosmic.Procfs.{Proc}
use sentinel_cosmic.Text.{text_eq, codes, Text}

abbrev session_file : Text
session_file =
    codes
      "# This is private data. Do not parse.\nSTATE=active\nREMOTE=0\nTYPE=wayland\nCLASS=user\nREMOTE=1\n"

abbrev one_session : Text → Option Text
one_session path =
    if text_eq path (codes "/run/systemd/sessions/c2") then some session_file else none

reads_file :
    session_info one_session (codes "c2")
    ≡ some (record {
      state = some (codes "active");
      kind = some (codes "wayland");
      class = some (codes "user");
      remote = some true;
      tty = none;
    })
unfolding session_info text_eq
reads_file = refl

refuses_path : session_info one_session (codes "../../c2") ≡ none
unfolding session_info
refuses_path = refl

abbrev shell : Proc
shell = record {
  comm = λ _. none;
  status = λ _. none;
  exe = λ _. none;
  cwd = λ _. none;
  cmdline = λ _. none;
  environ = λ _. some (some (codes "HOME=/root") ∷ some (codes "XDG_SESSION_ID=c2") ∷ []);
  loginuid = λ _. none;
  sessionid = λ _. none;
}

told :
    logfmt_session_for_pid shell one_session 7
    ≡ codes " session_type=wayland session_class=user session_remote=1"
unfolding logfmt_session_for_pid text_eq
told = refl

logfmt_session_for_pid-Told_example :
    (fs : List (Text × Text)) × (read_fields 4 (logfmt_session_for_pid shell one_session 7)
      ≡ some fs)
    × Told shell one_session 7 fs
logfmt_session_for_pid-Told_example = logfmt_session_for_pid-Told shell one_session 7
