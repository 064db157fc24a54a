-- ===== src/Agent/Begin/Elevated.antt =====
-- What the session takes an elevation tool's request for.
use sentinel_cosmic.Agent.Begin.{
  detail_pid, World, recovered, exe_shown, cmdline_shown, BeginRequest, filled_detail, head_of,
}
use sentinel_cosmic.Cli.Arguments.{plain}
use sentinel_cosmic.Common.{
  true, Option, ◌>>=◌, some, ◌++◌, All, ◌≡◌, ◌∙◌, ◌∷◌, List, none, ap, or_else,
}
use sentinel_cosmic.Dialog.Tests.{args}
use sentinel_cosmic.Elevation.{is_elevation_tool}
use sentinel_cosmic.Elevation.Strip.{Flag, strip-join, flags_words, IsCommand}
use sentinel_cosmic.Elevation.Whole.{differs, cmd_words}
use sentinel_cosmic.Procfs.{read_exe, read_cmdline, pid_of}
use sentinel_cosmic.Text.{Text, split_whitespace, join, codes}
use sentinel_cosmic.Text.Decimal.{ℤ}
use sentinel_cosmic.Text.Trim.{join_not_empty}
use sentinel_cosmic.Text.Words.{split_whitespace-join, IsWord, space}

abbrev subject_exe : World → BeginRequest → Option Text
subject_exe w req =
    detail_pid req (codes "polkit.subject-pid") >>= (λ pid. read_exe w.proc (pid_of pid))

-- What is recovered from such a command line is the command.
recovered-whole :
    (tool : Text) (fs : List Flag) (prog : Text) (args : List Text)
    → is_elevation_tool tool ≡ true
    → All IsWord (tool ∷ (flags_words fs ++ (prog ∷ args)))
    → IsCommand (prog ∷ args)
    → recovered (join (tool ∷ (flags_words fs ++ (prog ∷ args))) space)
      ≡ some (join (prog ∷ args) space)
unfolding recovered
recovered-whole tool fs prog args t words plain =
    let cmd = prog ∷ args in
    rw (strip-join tool fs cmd t words plain)
      (rw (differs tool fs cmd words, join_not_empty prog args (cmd_words tool fs cmd words)))

-- Where polkit names no program and no command line, and the caller is an elevation tool with its flags and
-- a command, all of them nonempty words without blanks and the command not one that starts with a flag, the
-- dialog, the policy and a grant are about that command and its program: neither the tool nor the process
-- that asked takes their place.
pub exe_shown_elevated :
    (w : World) (req : BeginRequest) (pid : ℤ) (tool : Text) (fs : List Flag) (prog : Text)
    (args : List Text)
    → is_elevation_tool tool ≡ true
    → All IsWord (tool ∷ (flags_words fs ++ (prog ∷ args)))
    → IsCommand (prog ∷ args)
    → filled_detail req (codes "command_line") ≡ none
    → filled_detail req (codes "program") ≡ none
    → detail_pid req (codes "polkit.caller-pid") ≡ some pid
    → read_cmdline w.proc (pid_of pid)
      ≡ some (join (tool ∷ (flags_words fs ++ (prog ∷ args))) space)
    → (cmdline_shown w req ≡ some (join (prog ∷ args) space)) × (exe_shown w req ≡ some prog)
unfolding exe_shown cmdline_shown
exe_shown_elevated w req pid tool fs prog args t words plain no_line no_program caller e =
    let found : (read_cmdline w.proc (pid_of pid) >>= recovered) ≡ some (join (prog ∷ args) space) =
      ap (λ o. o >>= recovered) e ∙ recovered-whole tool fs prog args t words plain in
    let line : cmdline_shown w req ≡ some (join (prog ∷ args) space) =
      ap
        (λ o. or_else o (
          detail_pid req (codes "polkit.caller-pid")
          >>= (λ p. read_cmdline w.proc (pid_of p) >>= recovered)))
        no_line
      ∙ ap (λ o. o >>= (λ p. read_cmdline w.proc (pid_of p) >>= recovered)) caller
      ∙ found in
    (
      line,
      ap
            (λ o. or_else o (
              or_else (cmdline_shown w req >>= (λ s. head_of (split_whitespace s)))
                (subject_exe w req)))
            no_program
          ∙ ap (λ o. or_else (o >>= (λ s. head_of (split_whitespace s))) (subject_exe w req)) line
          ∙ ap (λ ws. or_else (head_of ws) (subject_exe w req))
              (split_whitespace-join (prog ∷ args) (cmd_words tool fs (prog ∷ args) words)),
    )
