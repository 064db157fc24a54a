-- ===== src/Procfs/Tests.antt =====
-- Tests of the command line's reader.
use sentinel_cosmic.Common.{arith, List, ◌∷◌, All, []}
use sentinel_cosmic.Procfs.Args.{IsArg}
use sentinel_cosmic.Text.{Text, codes}

abbrev upgrade_args : List Text
upgrade_args = codes "pacman" ∷ codes "-Syu" ∷ []

upgrade_IsArg : All IsArg upgrade_args
upgrade_IsArg = ground arith
