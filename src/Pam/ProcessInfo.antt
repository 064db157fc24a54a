-- ===== src/Pam/ProcessInfo.antt =====
-- crates/pam-sentinel/src/proc_info.rs: what a process is taken to run.
pub mod Elevated
use sentinel_cosmic.Basename.{process_basename}
use sentinel_cosmic.Common.{
  some, Option, ℕ, if◌then◌else◌, or_else, not, ◌&&◌, none, ◌∷◌, [], unwrap_or, List, ◌>>=◌,
}
use sentinel_cosmic.Elevation.{remember_eligible_command, strip_elevation_prefix}
use sentinel_cosmic.Procfs.{read_cwd, Proc, read_comm, read_cmdline, read_exe, read_ppid}
use sentinel_cosmic.Text.{text_eq, split_whitespace, Text, trim, codes, is_empty}

-- `remember_command_for`.
unfoldable pub remember_command_for : Text → Option Text
unfolding trim remember_eligible_command
remember_command_for cmd =
    let c = trim cmd in if not (is_empty c) && remember_eligible_command c then some c else none

pub record ProcessInfo : Type 0 where
  pub name : Text
  pub exe : Text
  pub cmdline : Text
  pub cwd : Text
  pub remember_command : Option Text
  pub policy_exe : Option Text

-- The four values that the three paths compute.
pub record Target : Type 0 where
  pub exe : Text
  pub cmdline : Text
  pub remember_command : Option Text
  pub policy_exe : Option Text

-- The parent's program and command line, where the program can be read.
unfoldable pub parent_of : Proc → ℕ → Option (Text × Text)
unfolding read_ppid read_exe read_cmdline
parent_of proc pid = read_ppid proc pid >>= (λ ppid.
    read_exe proc ppid >>= (λ pexe. some (pexe, unwrap_or (read_cmdline proc ppid) [])))

abbrev pub shown_by_parent : Text → Text → Option (Text × Text) → Target
shown_by_parent raw_exe raw_cmdline (some (pexe, pcmdline)) = record {
  exe = pexe;
  cmdline = pcmdline;
  remember_command = none;
  policy_exe = none;
}
shown_by_parent raw_exe raw_cmdline none = record {
  exe = raw_exe;
  cmdline = raw_cmdline;
  remember_command = none;
  policy_exe = none;
}

abbrev pub first_or_unknown : List Text → Text
first_or_unknown [] = codes "unknown"
first_or_unknown (w ∷ ws) = w

abbrev pub elevated_target : Text → Target
elevated_target stripped =
    let target_exe = first_or_unknown (split_whitespace stripped) in
    record {
      exe = target_exe;
      cmdline = stripped;
      remember_command = remember_command_for stripped;
      policy_exe = some target_exe;
    }

-- The three paths: an elevation tool with a target, one without, and any other program.
unfoldable pub target_of : Text → Text → Option (Text × Text) → Target
unfolding strip_elevation_prefix text_eq split_whitespace remember_command_for
target_of raw_exe raw_cmdline parent =
    let stripped = strip_elevation_prefix raw_cmdline in
    if not (is_empty raw_cmdline) && not (text_eq stripped raw_cmdline)
    then (if is_empty stripped
        then shown_by_parent raw_exe raw_cmdline parent
        else elevated_target stripped)
    else record {
      exe = raw_exe;
      cmdline = raw_cmdline;
      remember_command = remember_command_for raw_cmdline;
      policy_exe = some raw_exe;
    }

-- `ProcessInfo::for_pid`.
unfoldable pub for_pid : Proc → ℕ → ProcessInfo
unfolding target_of parent_of read_exe read_cmdline read_comm read_cwd process_basename
for_pid proc pid =
    let target =
      target_of (unwrap_or (read_exe proc pid) (codes "unknown"))
        (unwrap_or (read_cmdline proc pid) []) (parent_of proc pid) in
    record {
      name =
          unwrap_or (or_else (process_basename target.exe) (read_comm proc pid)) (codes "unknown");
      exe = target.exe;
      cmdline = target.cmdline;
      cwd = unwrap_or (read_cwd proc pid) [];
      remember_command = target.remember_command;
      policy_exe = target.policy_exe;
    }
