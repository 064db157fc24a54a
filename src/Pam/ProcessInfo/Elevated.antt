-- ===== src/Pam/ProcessInfo/Elevated.antt =====
-- Command lines of an elevation tool: what the policy matches and what a grant may bind to.
-- What is known of a command that runs elevated. Where there is none, as for a root shell, nothing may
-- be matched by the policy and nothing may be remembered.
use sentinel_cosmic.Common.{
  none, if◌then◌else◌, Option, [], All, ◌∷◌, true, some, ◌++◌, List, ◌≡◌, ap, refl, unwrap_or, ℕ,
}
use sentinel_cosmic.Elevation.{is_elevation_tool, eligible_program, remember_eligible_command}
use sentinel_cosmic.Elevation.Strip.{IsCommand, flags_words, Flag, strip-join}
use sentinel_cosmic.Elevation.Whole.{whole, cmd_words, differs}
use sentinel_cosmic.Pam.ProcessInfo.{
  elevated_target, shown_by_parent, Target, target_of, remember_command_for, first_or_unknown,
  parent_of, for_pid,
}
use sentinel_cosmic.Procfs.{read_exe, Proc, read_cmdline}
use sentinel_cosmic.Text.{Text, join, is_empty, codes}
use sentinel_cosmic.Text.Trim.{trim-join, join_not_empty}
use sentinel_cosmic.Text.Words.{space, IsWord, split_whitespace-join}

abbrev pub Shows : List Text → Option Text → Option Text → Type 0
Shows [] policy_exe remember = (policy_exe ≡ none) × (remember ≡ none)
Shows (prog ∷ args) policy_exe remember =
    (policy_exe ≡ some prog)
    × (remember
        ≡ (if eligible_program (prog ∷ args) then some (join (prog ∷ args) space) else none))

module _ (tool : Text) (fs : List Flag) (cmd : List Text) (is_tool : is_elevation_tool tool ≡ true)
    (words : All IsWord (tool ∷ (flags_words fs ++ cmd))) (plain : IsCommand cmd) where
  target_of-whole :
      (raw_exe : Text) (parent : Option (Text × Text))
      → target_of raw_exe (whole tool fs cmd words) parent ≡ (
          if is_empty (join cmd space)
          then shown_by_parent raw_exe (whole tool fs cmd words) parent
          else elevated_target (join cmd space))
  unfolding target_of
  target_of-whole raw_exe parent =
      rw (strip-join tool fs cmd is_tool words plain)
        (rw (join_not_empty tool (flags_words fs ++ cmd) words, differs tool fs cmd words))

remember_command_for-join :
    (w : Text) (ws : List Text)
    → All IsWord (w ∷ ws)
    → remember_command_for (join (w ∷ ws) space)
      ≡ (if eligible_program (w ∷ ws) then some (join (w ∷ ws) space) else none)
unfolding remember_command_for remember_eligible_command
remember_command_for-join w ws h =
    rw (trim-join w ws h, join_not_empty w ws h) (rw (split_whitespace-join (w ∷ ws) h))

shown_Shows :
    (raw_exe raw_cmdline : Text) (cmd : List Text) (parent : Option (Text × Text))
    → All IsWord cmd
    → (target : Target)
    → target ≡ (
        if is_empty (join cmd space)
        then shown_by_parent raw_exe raw_cmdline parent
        else elevated_target (join cmd space))
    → Shows cmd target.policy_exe target.remember_command
unfolding join
shown_Shows raw_exe raw_cmdline [] none h target e = rw e (refl, refl)
shown_Shows raw_exe raw_cmdline [] (some p) h target e = rw e (refl, refl)
shown_Shows raw_exe raw_cmdline (w ∷ ws) parent h target e =
    rw (e, join_not_empty w ws h)
      (
        ap some (ap first_or_unknown (split_whitespace-join (w ∷ ws) h)),
        remember_command_for-join w ws h,
      )

-- The command line of an elevation tool, its flags and a command, as /proc gives it, all of them nonempty
-- words without blanks and the command not one that starts with a flag: the policy is
-- asked about the command's program and a grant binds to the whole command, if its program may be
-- remembered at all. If there is no command, which makes it a root shell or a refreshed credential, the
-- policy matches nothing and nothing is remembered, whatever process launched the tool.
pub for_pid_elevated :
    (proc : Proc) (pid : ℕ) (tool : Text) (fs : List Flag) (cmd : List Text)
    → is_elevation_tool tool ≡ true
    → All IsWord (tool ∷ (flags_words fs ++ cmd))
    → IsCommand cmd
    → read_cmdline proc pid ≡ some (join (tool ∷ (flags_words fs ++ cmd)) space)
    → Shows cmd (for_pid proc pid).policy_exe (for_pid proc pid).remember_command
unfolding for_pid
for_pid_elevated proc pid tool fs cmd t words plain e =
    let raw_exe = unwrap_or (read_exe proc pid) (codes "unknown") in
    rw e (
      shown_Shows raw_exe (whole tool fs cmd words) cmd (parent_of proc pid)
        (cmd_words tool fs cmd words) _
        (target_of-whole tool fs cmd t words plain raw_exe (parent_of proc pid)))
