-- ===== src/Dialog/Startup/Process.antt =====
-- crates/sentinel-helper-kde/src/main.rs: the process from its arguments to what it writes.
use sentinel_cosmic.Cli.Arguments.{CliArg, parse, Given}
use sentinel_cosmic.Common.{Option, List, ℕ, [], ◌∷◌, none, Bool, some}
use sentinel_cosmic.Dialog.{Args}
use sentinel_cosmic.Dialog.Startup.{Command, Desktop, run_main, StartArgs}
use sentinel_cosmic.Text.{Text}

-- What the process writes once its arguments are read: nothing where clap refuses them.
abbrev pub ran : (Text → Bool) → (Command → Bool) → Desktop → Option (Args × StartArgs) → List ℕ
unfolding run_main
ran is_file starts d none = []
ran is_file starts d (some p) = (run_main is_file starts p.0 p.1 d).stdout

-- The dialog's process, from its argument vector to its standard output.
unfoldable pub helper_stdout :
    (List CliArg → List Text → Option Given)
    → (Text → Bool)
    → (Command → Bool)
    → List Text
    → Desktop
    → List ℕ
unfolding parse run_main
helper_stdout clap is_file starts [] d = []
helper_stdout clap is_file starts (program ∷ argv) d = ran is_file starts d (parse clap argv)
