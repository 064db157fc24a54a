-- ===== src/Pam/Tests.antt =====
-- Tests of the PAM module's parts, and the theorems at concrete calls.
use sentinel_cosmic.Agent.Tests.{config}
use sentinel_cosmic.Common.{
  true, none, ℕ, ◌==◌, ◌*◌, [], take, arith, ◌&&◌, ◌≡◌, ◌++◌, All, refl, ◌⊎◌, List, false, ◌∷◌,
  some, ◌||◌, if◌then◌else◌, Any, inr, inl, ◌<◌, ◌+◌,
}
use sentinel_cosmic.Elevation.{is_elevation_tool, takes_value}
use sentinel_cosmic.Elevation.Strip.{valued, flags_words, Flag}
use sentinel_cosmic.Pam.{pam_success}
use sentinel_cosmic.Pam.Bypass.{Bus, check_agent_bypass, Approved}
use sentinel_cosmic.Pam.Bypass.Owner.{check_agent_bypass_iff}
use sentinel_cosmic.Pam.Helper.{
  never, ready, bytes, ok, forked, parent_poll_timeout, run_child, millis, Spawn, parent_wait,
  HelperRequest,
}
use sentinel_cosmic.Pam.Helper.Child.{
  Kernel, PasswdEntry, Effect, drops, IsExec, child_exec, child_exec-drops,
}
use sentinel_cosmic.Pam.Helper.Deadline.{parent_poll_timeout_outlasts}
use sentinel_cosmic.Pam.Helper.Pipe.{run_child_allow, parent_wait-show_verdict}
use sentinel_cosmic.Pam.Locale.{read_locale_env}
use sentinel_cosmic.Pam.Locale.Safe.{read_locale_env-Harmless, Harmless}
use sentinel_cosmic.Pam.ProcessInfo.{for_pid}
use sentinel_cosmic.Pam.ProcessInfo.Elevated.{Shows, for_pid_elevated}
use sentinel_cosmic.Pam.Utf8.{from_utf8}
use sentinel_cosmic.Procfs.{Proc, read_cmdline, read_ppid}
use sentinel_cosmic.Text.{first_part, Text, codes, split_whitespace, is_whitespace}
use sentinel_cosmic.Text.Words.{IsWord}
use sentinel_cosmic.Verdict.{Outcome, show_verdict, is_allow, Verdict}

abbrev cmdline_bytes : Text
cmdline_bytes = codes "sudo\0-u\0root\0pacman\0-Syu\0"

abbrev pub sudo_proc : Proc
sudo_proc = record {
  comm = λ p. some (codes "sudo\n");
  status = λ p. some (codes "Name:\tsudo\nPPid:\t41\nUid:\t1000\t0\t0\t0\n");
  exe = λ p. some (codes "/usr/bin/sudo");
  cwd = λ p. none;
  cmdline = λ p. some cmdline_bytes;
  environ = λ p. some (none ∷ some (codes "LANG=tr_TR.UTF-8") ∷ some (codes "LC_ALL=../etc") ∷ []);
  loginuid = λ p. some (codes "1000\n");
  sessionid = λ p. some (codes "3\n");
}

parent_pid : read_ppid sudo_proc 42 ≡ some 41
unfolding read_ppid
parent_pid = refl

locale_kept : read_locale_env sudo_proc 42 ≡ (codes "LANG", codes "tr_TR.UTF-8") ∷ []
unfolding read_locale_env
locale_kept = refl

read_locale_env-Harmless_example : All Harmless (read_locale_env sudo_proc 42)
read_locale_env-Harmless_example = read_locale_env-Harmless sudo_proc 42

abbrev root_flag : List Flag
root_flag = valued (codes "-u") (codes "root") (unfold takes_value in refl) ∷ []

abbrev pacman : List Text
pacman = codes "pacman" ∷ codes "-Syu" ∷ []

elevated_words : All IsWord (codes "sudo" ∷ (flags_words root_flag ++ pacman))
unfolding is_whitespace takes_value
elevated_words = ground arith

for_pid_elevated_example :
    Shows pacman (for_pid sudo_proc 42).policy_exe (for_pid sudo_proc 42).remember_command
unfolding is_elevation_tool takes_value read_cmdline is_whitespace
for_pid_elevated_example =
    for_pid_elevated sudo_proc 42 (codes "sudo") root_flag pacman refl elevated_words (refl, refl)
      refl

abbrev pub no_agent : Bus
no_agent = record {
  pam_user = some (codes "ada");
  pam_user_item = none;
  uid_of_name = λ n. some 1000;
  connects = true;
  owner_uid = some 1001;
  proxy_built = true;
  take_approval = some true;
}

squatter_refused : check_agent_bypass no_agent ≡ none
unfolding check_agent_bypass
squatter_refused = refl

check_agent_bypass_iff_example :
    ((check_agent_bypass no_agent ≡ none) × (¬ Approved no_agent))
    ⊎ ((check_agent_bypass no_agent ≡ some pam_success) × Approved no_agent)
check_agent_bypass_iff_example = check_agent_bypass_iff no_agent

abbrev ticked_answer : Spawn
ticked_answer = forked (ready (bytes (codes "ALLOW REMEMBER\n")))

abbrev ticked_allow : Verdict
ticked_allow = record { outcome = Outcome.allow; remember = true }

answered_allow : run_child ticked_answer ≡ ok ticked_allow
unfolding run_child
answered_allow = refl

run_child_allow_example :
    (out : List ℕ) × (text : Text) × (rest : List Text) × (ticked_answer
      ≡ forked (ready (bytes out)))
    × (from_utf8 (take 16 out) ≡ some text)
    × (split_whitespace (first_part (λ c. c == b'\n' || c == b'\r') text) ≡ codes "ALLOW" ∷ rest)
run_child_allow_example = run_child_allow ticked_answer ticked_allow answered_allow refl

parent_wait-show_verdict_example :
    parent_wait (ready (bytes (show_verdict ticked_allow ++ (b'\n' ∷ []))))
    ≡ (false, ok (record { outcome = Outcome.allow; remember = true && is_allow Outcome.allow }))
parent_wait-show_verdict_example = parent_wait-show_verdict ticked_allow

-- What is longer than the buffer is read as its first 16 bytes.
cut_to_allow :
    run_child (forked (ready (bytes (codes "ALLOW and anything else"))))
    ≡ ok (record { outcome = Outcome.allow; remember = false })
unfolding run_child
cut_to_allow = refl

parent_poll_timeout_outlasts_example :
    ((◌≡◌ {A = ℕ} 30 0) × (parent_poll_timeout 30 ≡ never))
    ⊎ ((0 < 30) × (parent_poll_timeout 30 ≡ millis (1000 * 30 + 5000)))
parent_poll_timeout_outlasts_example = parent_poll_timeout_outlasts 30 (omega arith)

-- A timeout of 4294963 seconds overflows, and the parent waits for 704 milliseconds.
poll_overflow : parent_poll_timeout 4294963 ≡ millis 704
unfolding parent_poll_timeout
poll_overflow = refl

abbrev dialog_request : HelperRequest
dialog_request = record {
  cfg = config;
  user = codes "ada";
  service = codes "sudo";
  process = for_pid sudo_proc 42;
  title = codes "t";
  message = codes "m";
  secondary = [];
  target_uid = 1000;
  requesting_pid = 42;
  remember_secs = 0;
}

abbrev ada : PasswdEntry
ada = record { name = codes "ada"; uid = 1000; gid = 100; dir = codes "/home/ada" }

abbrev willing : Kernel
willing = record {
  from_uid = λ uid. if uid == 1000 then some ada else none;
  initgroups_ok = true;
  setgid_ok = true;
  setuid_ok = true;
  dup_ok = true;
  exec_ok = true;
}

helper_executed : Any IsExec (child_exec willing sudo_proc (codes "/usr/lib/helper") dialog_request)
unfolding child_exec
helper_executed = inr (inr (inr (inr (inr (inr (inr (inr (inl tt))))))))

child_exec-drops_example :
    (u : PasswdEntry) × (rest : List Effect) × (willing.from_uid 1000 ≡ some u)
    × (child_exec willing sudo_proc (codes "/usr/lib/helper") dialog_request ≡ drops u ++ rest)
    × (willing.initgroups_ok ≡ true)
    × (willing.setgid_ok ≡ true)
    × (willing.setuid_ok ≡ true)
child_exec-drops_example =
    child_exec-drops willing sudo_proc (codes "/usr/lib/helper") dialog_request helper_executed
