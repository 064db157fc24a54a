-- ===== src/Elevation.antt =====
-- crates/sentinel-shared/src/lib.rs: `strip_elevation_prefix`, which programs may be remembered and
-- what a remember grant is keyed on.
pub mod Strip
pub mod Remember
pub mod Whole
pub mod Tests
use sentinel_cosmic.Basename.{process_basename}
use sentinel_cosmic.Common.{List, ◌∷◌, [], unwrap_or, false, not, if◌then◌else◌, Bool}
use sentinel_cosmic.Config.{RememberScope, program, command}
use sentinel_cosmic.Text.{
  split_whitespace, Text, join, trim, starts_with_char, list_contains, codes,
}
use sentinel_cosmic.Text.Words.{space}

abbrev pub elevation_tools : List Text
elevation_tools = codes "pkexec" ∷ codes "sudo" ∷ codes "sudo-rs" ∷ codes "su" ∷ codes "doas" ∷ []

abbrev pub elevation_flags_with_value : List Text
elevation_flags_with_value =
    codes "--user"
    ∷ codes "-u"
    ∷ codes "--group"
    ∷ codes "-g"
    ∷ codes "--host"
    ∷ codes "-h"
    ∷ codes "--chdir"
    ∷ codes "-D"
    ∷ codes "--prompt"
    ∷ codes "-p"
    ∷ codes "--command-timeout"
    ∷ codes "-T"
    ∷ codes "--close-from"
    ∷ codes "-C"
    ∷ codes "--type"
    ∷ codes "-t"
    ∷ codes "--role"
    ∷ codes "-r"
    ∷ codes "--other-user"
    ∷ codes "-U"
    ∷ codes "--chroot"
    ∷ codes "-R"
    ∷ []

unfoldable pub takes_value : Text → Bool
unfolding list_contains
takes_value p = list_contains elevation_flags_with_value p

unfoldable pub is_elevation_tool : Text → Bool
unfolding list_contains process_basename
is_elevation_tool first = list_contains elevation_tools (unwrap_or (process_basename first) first)

-- The loop over the words behind the tool: what is left when it stops.
unfoldable pub skip_flags : List Text → List Text
unfolding takes_value
skip_flags [] = []
skip_flags (p ∷ []) = if takes_value p then [] else if starts_with_char p b'-' then [] else p ∷ []
skip_flags (p ∷ v ∷ ps) =
    let behind_value = skip_flags ps in
    let behind_flag = skip_flags (v ∷ ps) in
    if takes_value p
    then behind_value
    else if starts_with_char p b'-'
    then behind_flag
    else p ∷ v ∷ ps

abbrev strip_parts : Text → List Text → Text
strip_parts cmdline [] = []
strip_parts cmdline (first ∷ rest) =
    if not (is_elevation_tool first) then cmdline else join (skip_flags rest) space

unfoldable pub strip_elevation_prefix : Text → Text
unfolding is_elevation_tool skip_flags join split_whitespace
strip_elevation_prefix cmdline = strip_parts cmdline (split_whitespace cmdline)

abbrev pub remember_ineligible : List Text
remember_ineligible =
    codes "sh"
    ∷ codes "bash"
    ∷ codes "dash"
    ∷ codes "zsh"
    ∷ codes "fish"
    ∷ codes "ksh"
    ∷ codes "tcsh"
    ∷ codes "csh"
    ∷ codes "ash"
    ∷ codes "busybox"
    ∷ codes "python"
    ∷ codes "python2"
    ∷ codes "python3"
    ∷ codes "perl"
    ∷ codes "ruby"
    ∷ codes "node"
    ∷ codes "nodejs"
    ∷ codes "lua"
    ∷ codes "php"
    ∷ codes "gdb"
    ∷ codes "tclsh"
    ∷ codes "expect"
    ∷ codes "su"
    ∷ codes "sudo"
    ∷ codes "sudo-rs"
    ∷ codes "doas"
    ∷ codes "pkexec"
    ∷ codes "run0"
    ∷ codes "env"
    ∷ codes "vi"
    ∷ codes "vim"
    ∷ codes "nvim"
    ∷ codes "view"
    ∷ codes "emacs"
    ∷ codes "nano"
    ∷ codes "less"
    ∷ codes "more"
    ∷ codes "man"
    ∷ codes "ed"
    ∷ codes "awk"
    ∷ codes "find"
    ∷ []

unfoldable pub eligible_program : List Text → Bool
unfolding list_contains process_basename
eligible_program [] = false
eligible_program (first ∷ rest) =
    not (list_contains remember_ineligible (unwrap_or (process_basename first) first))

unfoldable pub remember_eligible_command : Text → Bool
unfolding eligible_program split_whitespace
remember_eligible_command cmd = eligible_program (split_whitespace cmd)

abbrev pub first_word : List Text → Text
first_word [] = []
first_word (w ∷ ws) = w

unfoldable pub remember_key_command : Text → RememberScope → Text
unfolding trim split_whitespace
remember_key_command cmd command = trim cmd
remember_key_command cmd program = first_word (split_whitespace cmd)
