-- ===== src/Agent/Begin/Tests.antt =====
-- Tests of BeginAuthentication, and the theorems at a concrete request.
use sentinel_cosmic.Agent.Begin.{
  exe_shown, detail_pid, filled_detail, BeginRequest, World, cmdline_shown,
}
use sentinel_cosmic.Agent.Begin.Elevated.{exe_shown_elevated}
use sentinel_cosmic.Agent.Helper1.{no_connection}
use sentinel_cosmic.Agent.Identity.{uid_of}
use sentinel_cosmic.Agent.Session.{Env, State}
use sentinel_cosmic.Common.{List, some, ◌++◌, [], Any, arith, All, ◌≡◌, inl, refl, none, ◌∷◌, inr}
use sentinel_cosmic.Config.{defaults}
use sentinel_cosmic.Elevation.{takes_value, is_elevation_tool}
use sentinel_cosmic.Elevation.Strip.{flags_words, valued, Flag}
use sentinel_cosmic.Procfs.{read_cmdline, Proc}
use sentinel_cosmic.Text.{codes, join, is_whitespace, Text}
use sentinel_cosmic.Text.Decimal.{pos}
use sentinel_cosmic.Text.Words.{IsWord, space}

abbrev kernel : Proc
kernel = record {
  comm = λ p. none;
  status = λ p. none;
  exe = λ p. some (codes "/usr/bin/bash");
  cwd = λ p. some (codes "/home/ada");
  cmdline = λ p. some (codes "pkexec\0--user\0root\0gparted\0/dev/sda\0");
  environ = λ p. none;
  loginuid = λ p. none;
  sessionid = λ p. none;
}

abbrev session_env : Env
session_env = record {
  now_check = 0;
  now_record = 0;
  now_push = 0;
  canned_dialog = none;
  dialog = none;
  takes = [];
  canned_helper1 = none;
  helper1 = no_connection;
}

abbrev desk : World
desk = record {
  own_uid = 1000;
  name_of_uid = λ u. some (codes "ada");
  proc = kernel;
  document = defaults;
  session = session_env;
}

abbrev request : BeginRequest
request = record {
  action_id = codes "org.gnome.gparted";
  details = (codes "polkit.caller-pid", codes "77") ∷ (codes "polkit.subject-pid", codes "-1") ∷ [];
  cookie = codes "c";
  identities = record { kind = codes "unix-user"; details = (codes "uid", some 0) ∷ [] } ∷ [];
}

abbrev clean : State
clean = record { queue = []; cache = []; notices = []; audit = [] }

abbrev user_flag : List Flag
user_flag = valued (codes "--user") (codes "root") (unfold takes_value in refl) ∷ []

abbrev disk : List Text
disk = codes "/dev/sda" ∷ []

gparted_words : All IsWord (codes "pkexec" ∷ (flags_words user_flag ++ (codes "gparted" ∷ disk)))
unfolding is_whitespace takes_value
gparted_words = ground arith

exe_shown_elevated_example :
    (cmdline_shown desk request ≡ some (join (codes "gparted" ∷ disk) space))
    × (exe_shown desk request ≡ some (codes "gparted"))
unfolding is_elevation_tool takes_value read_cmdline filled_detail detail_pid
exe_shown_elevated_example =
    exe_shown_elevated desk request (pos 77) (codes "pkexec") user_flag (codes "gparted") disk refl
      gparted_words (refl, refl) refl refl refl refl

nobody : ¬ Any (λ i. uid_of i ≡ some 1000) request.identities
unfolding uid_of
nobody (inl e) = cc e
nobody (inr m) = absurd m
