-- ===== src/Basename.antt =====
-- crates/sentinel-shared/src/lib.rs: `process_basename` and `resolve_icon_name`.
-- `Path::file_name`: the last component, where empty and `.` components are skipped, unless it is `..`.
use sentinel_cosmic.Common.{
  ◌∷◌, retain, ◌||◌, ◌==◌, if◌then◌else◌, some, none, Option, ◌>>=◌, [], Bool, not, List, unwrap_or,
}
use sentinel_cosmic.Text.{codes, split, is_empty, Text, text_eq}

abbrev is_component : Text → Bool
is_component p = not (is_empty p || text_eq p (codes "."))

abbrev last_component : List Text → Option Text
last_component [] = none
last_component (p ∷ []) = if text_eq p (codes "..") then none else some p
last_component (p ∷ q ∷ ps) = last_component (q ∷ ps)

unfoldable pub file_name : Text → Option Text
unfolding split text_eq
file_name path = last_component (retain is_component (split (λ c. c == b'/') path))

unfoldable pub process_basename : Text → Option Text
unfolding file_name
process_basename exe = file_name exe

unfoldable pub resolve_icon_name : Option Text → Option Text
unfolding process_basename
resolve_icon_name process_exe = process_exe >>= process_basename

-- `process_exe.and_then(process_basename).unwrap_or("unknown")`.
unfoldable pub process_name_or_unknown : Option Text → Text
unfolding process_basename
process_name_or_unknown exe = unwrap_or (exe >>= process_basename) (codes "unknown")
